-- ===== src/Storage/Keys/Start/Algorithms.antt =====
-- SignatureAlgorithms beside KeySet (internal/storage/storage.go).
use oidc_test_idp.Prelude.{
  String, ◌==◌, eq_iff, eq_refl, ◌≡◌, refl, Bool, true, not, ◌&&◌, List, [], ◌∷◌, arith, any, inl,
  inr,
}
use oidc_test_idp.Platform.{Platform}
use oidc_test_idp.Db.{World, ok}
use oidc_test_idp.Db.Statements.{Result-cases}
use oidc_test_idp.Storage.Keys.{KeyLibrary, SigningKey, Keys, load_all_signing_keys, key_set}
use oidc_test_idp.Storage.Keys.Rows.{keys-cases}
use oidc_test_idp.Storage.Keys.Start.{unseen, signature_algorithms}

abbrev pub mentions : String → List String → Bool
mentions a algs = any (λ s. s == a) algs

-- No text is in the list twice.
abbrev pub distinct : List String → Bool
distinct [] = true
distinct (x ∷ xs) = not (mentions x xs) && distinct xs

module _ (p : Platform) {Signer : Type 0} (library : KeyLibrary Signer) where
  abbrev pub uses : String → List (SigningKey Signer) → Bool
  uses a ks = any (λ k. k.algorithm == a) ks

  mentions-unseen :
      (a : String) (seen : List String) (ks : List (SigningKey Signer))
      → mentions a (unseen p library seen ks) ≡ (uses a ks && not (mentions a seen))
  unfolding unseen
  mentions-unseen a seen [] = refl
  mentions-unseen a seen (k ∷ ks) = ground (
    arith,
    mentions-unseen a seen ks,
    mentions-unseen a (k.algorithm ∷ seen) ks,
    eq_iff k.algorithm a,
  )

  distinct-unseen :
      (seen : List String) (ks : List (SigningKey Signer))
      → distinct (unseen p library seen ks) ≡ true
  unfolding unseen
  distinct-unseen seen [] = refl
  distinct-unseen seen (k ∷ ks) = ground (
    arith,
    distinct-unseen seen ks,
    distinct-unseen (k.algorithm ∷ seen) ks,
    mentions-unseen k.algorithm (k.algorithm ∷ seen) ks,
    eq_refl k.algorithm,
  )

  -- The algorithms are those of the keys, each once.
  abbrev pub IsAdvertised : List (SigningKey Signer) → List String → Type 0
  IsAdvertised ks algs = ((a : String) → mentions a algs ≡ uses a ks) × (distinct algs ≡ true)

  unseen-IsAdvertised : (ks : List (SigningKey Signer)) → IsAdvertised ks (unseen p library [] ks)
  unseen-IsAdvertised ks = ((λ a. ground (arith, mentions-unseen a [] ks)), distinct-unseen [] ks)

  -- SignatureAlgorithms and KeySet both succeed, and the algorithms that are advertised are those
  -- of the published keys, each once.
  pub signature_algorithms-key_set :
      (keys : Keys Signer) (w : World)
      → (ks : List (SigningKey Signer)) × (algs : List String) × ((key_set p library keys w).0
          ≡ ok ks)
        × ((signature_algorithms p library keys w).0 ≡ ok algs)
        × IsAdvertised ks algs
  unfolding key_set signature_algorithms
  signature_algorithms-key_set keys w = elim (Result-cases (load_all_signing_keys p library w).0) [
    | inr (e, f) ↦
        (keys.current ∷ [], keys.current.algorithm ∷ [], rw f refl, rw f refl, ((λ a. refl), refl))
    | inl (ks, f) ↦ elim (keys-cases ks) [
      | inl e ↦ (
        keys.current ∷ [],
        keys.current.algorithm ∷ [],
        rw (f, e) refl,
        rw (f, e) refl,
        ((λ a. refl), refl),
      )
      | inr (k, rest, e) ↦ (
        k ∷ rest,
        unseen p library [] (k ∷ rest),
        rw (f, e) refl,
        rw (f, e) refl,
        unseen-IsAdvertised (k ∷ rest),
      )
    ]
  ]
