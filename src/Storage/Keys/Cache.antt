-- ===== src/Storage/Keys/Cache.antt =====
-- The cache of keys per algorithm.
use oidc_test_idp.Prelude.{
  String, ◌==◌, eq_iff, eq_refl, ◌≡◌, ◌≢◌, refl, ap, ◌∙◌, true, false, some, inl, inr, arith,
  Option-cases, Bool-cases, ◌⊎◌, not, ◌&&◌,
}
use oidc_test_idp.Table.{get, put, get-put}
use oidc_test_idp.Platform.{Platform}
use oidc_test_idp.Db.{World, Error, ok, err}
use oidc_test_idp.Storage.Keys.Origin.{
  KeyRoundTrips, Origin, from_cache, from_row, from_generator, generated_lem, load-ids, loaded_lem,
}
use oidc_test_idp.Db.Statements.{Result-cases}
use oidc_test_idp.Storage.Keys.{
  KeyLibrary, Made, SigningKey, Keys, load_active_key_by_alg, generate_signing_key,
  ensure_key_for_alg, signing_key, is_supported_alg,
}

-- Each cached key has the algorithm under which it is cached.
abbrev pub IsSorted : {Signer : Type 0} → Keys Signer → Type 0
IsSorted keys = (alg : String) (k : _) → get alg keys.keys_by_alg ≡ some k → k.algorithm ≡ alg

module _ (p : Platform) {Signer : Type 0} (library : KeyLibrary Signer)
    (trips : KeyRoundTrips library) where
  -- What `ensureKeyForAlg` gives: a key of the algorithm, from where it should come, which the next
  -- call gives again without asking the database; the other cached keys and the current key stay,
  -- and the cache stays sorted.
  pub record IsEnsured (keys : Keys Signer) (made : Made Signer) (alg : String) (w : World)
      (k : SigningKey Signer) (after : Keys Signer) : Type 0 where
    pub algorithm : k.algorithm ≡ alg
    pub origin : Origin p library trips keys made alg w k
    pub again :
        (made' : Made Signer) (v : World)
        → ensure_key_for_alg p library after made' alg v ≡ (ok (k, after), v)
    pub others : (j : String) → alg ≢ j → get j after.keys_by_alg ≡ get j keys.keys_by_alg
    pub same_current : after.current ≡ keys.current
    pub sorted : IsSorted after

  added-IsEnsured :
      (keys : Keys Signer) (made : Made Signer) (alg : String) (w : World) (k : SigningKey Signer)
      → IsSorted keys
      → k.algorithm ≡ alg
      → Origin p library trips keys made alg w k
      → IsEnsured keys made alg w k (record keys { keys_by_alg = put alg k keys.keys_by_alg })
  unfolding ensure_key_for_alg
  added-IsEnsured keys made alg w k sorted e o = record {
    algorithm = e;
    origin = o;
    again = λ made' v. ground (arith, get-put alg alg k keys.keys_by_alg, eq_refl alg);
    others = λ j h. ground (arith, get-put alg j k keys.keys_by_alg, eq_iff alg j);
    same_current = refl;
    sorted = λ j i h. ground (arith, get-put alg j k keys.keys_by_alg, eq_iff alg j, sorted j i);
  }

  -- When the cache holds each key under its algorithm, the order of the rows adds none, and a key
  -- is found or made, it is a key of the algorithm: from the cache, or else from an active row
  -- with that algorithm whose PEM is the key, or else, where loading fails, from the generator of
  -- the algorithm under the next new id. The next call gives it again without asking the database,
  -- the other cached keys and the current key stay, and the cache still holds each key under its
  -- algorithm.
  pub ensure_key_for_alg-IsEnsured :
      (keys : Keys Signer) (made : Made Signer) (alg : String) (w : World) (k : SigningKey Signer)
      (after : Keys Signer)
      → IsSorted keys
      → (ensure_key_for_alg p library keys made alg w).0 ≡ ok (k, after)
      → IsEnsured keys made alg w k after
  unfolding ensure_key_for_alg
  ensure_key_for_alg-IsEnsured keys made alg w k after sorted h =
      elim (Option-cases (get alg keys.keys_by_alg)) [
        | inr (c, e) ↦
            let same : (c ≡ k) × (keys ≡ after) = ground arith in
            rw (← same.0, ← same.1)
              (record {
                algorithm = sorted alg c e;
                origin = from_cache e;
                again = λ made' v. ground arith;
                others = λ j n. refl;
                same_current = refl;
                sorted = sorted;
              })
        | inl e ↦ elim (Result-cases (load_active_key_by_alg p library alg w).0) [
          | inl (c, f) ↦
              let same : (c ≡ k)
                  × (record keys { keys_by_alg = put alg c keys.keys_by_alg } ≡ after) =
                ground arith in
              let (named, stored) = loaded_lem p library trips alg w c f in
              rw (← same.0, ← same.1)
                (added-IsEnsured keys made alg w c sorted named (from_row e stored))
          | inr (x, f) ↦
              elim (Result-cases
                (generate_signing_key p library made alg
                  (load_active_key_by_alg p library alg w).1).0) [
                    | inl (c, g) ↦
                        let same : (c ≡ k)
                            × (record keys { keys_by_alg = put alg c keys.keys_by_alg } ≡ after) =
                          ground arith in
                        let (named, by_made, new) = generated_lem p library trips made alg _ c g in
                        rw (← same.0, ← same.1)
                          (added-IsEnsured keys made alg w c sorted named (
                            from_generator e x f by_made
                              (new ∙ ap p.uuid (load-ids p library trips alg w))))
                    | inr (y, g) ↦ ground arith
                  ]
        ]
      ]

  -- What `SigningKey` gives: the ensured key for a supported algorithm, the current key where there
  -- is none and where ensuring the key fails.
  pub record IsSigned (keys : Keys Signer) (made : Made Signer) (alg : String) (w : World)
      (k : SigningKey Signer) (after : Keys Signer) : Type 0 where
    pub unasked : alg ≢ "RS256" → alg ≢ "ES256" → (k ≡ keys.current) × (after ≡ keys)
    pub asked :
        (alg ≡ "RS256") ⊎ (alg ≡ "ES256")
        → (IsEnsured keys made alg w k after
            × ((ensure_key_for_alg p library keys made alg w).0 ≡ ok (k, after)))
          ⊎ ((e : Error) × ((ensure_key_for_alg p library keys made alg w).0 ≡ err e)
              × (k ≡ keys.current)
              × (after ≡ keys))

  asks-asked :
      (alg : String)
      → (alg ≡ "RS256") ⊎ (alg ≡ "ES256")
      → (not (alg == "") && is_supported_alg alg) ≡ true
  unfolding is_supported_alg
  asks-asked alg (inl e) = rw e refl
  asks-asked alg (inr e) = rw e refl

  asks-unasked :
      (alg : String)
      → alg ≢ "RS256"
      → alg ≢ "ES256"
      → (not (alg == "") && is_supported_alg alg) ≡ false
  unfolding is_supported_alg
  asks-unasked alg h k = ground (arith, eq_iff "RS256" alg, eq_iff "ES256" alg)

  -- When the cache holds each key under its algorithm and the order of the rows adds none,
  -- SigningKey never fails: for RS256 and ES256 it gives the key of that algorithm that
  -- ensureKeyForAlg gives, and the current key, the cache unchanged, where that fails; for any
  -- other algorithm it gives the current key and leaves the cache as it is. The cache still holds
  -- each key under its algorithm.
  pub signing_key-IsSigned :
      (keys : Keys Signer) (made : Made Signer) (alg : String) (w : World)
      → IsSorted keys
      → (k : SigningKey Signer) × (after : Keys Signer) × ((signing_key p library keys made alg w).0
          ≡ ok (k, after))
        × IsSigned keys made alg w k after
        × IsSorted after
  unfolding signing_key
  signing_key-IsSigned keys made alg w sorted =
      elim (Bool-cases (not (alg == "") && is_supported_alg alg)) [
        | inr unwanted ↦ (
          keys.current,
          keys,
          ground arith,
          record { unasked = λ h k. (refl, refl); asked = λ h. ground (arith, asks-asked alg h) },
          sorted,
        )
        | inl wanted ↦ elim (Result-cases (ensure_key_for_alg p library keys made alg w).0) [
          | inr (x, f) ↦ (
            keys.current,
            keys,
            ground arith,
            record { unasked = λ h k. (refl, refl); asked = λ h. inr (x, f, refl, refl) },
            sorted,
          )
          | inl ((k, after), f) ↦
              let e = ensure_key_for_alg-IsEnsured keys made alg w k after sorted f in
              (
                k,
                after,
                ground arith,
                record {
                  unasked = λ h i. ground (arith, asks-unasked alg h i);
                  asked = λ h. inl (e, f);
                },
                e.sorted,
              )
        ]
      ]
