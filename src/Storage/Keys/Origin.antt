-- ===== src/Storage/Keys/Origin.antt =====
-- Where a signing key comes from: the generator of its algorithm, or a stored row.
use mathlib.Core.List.{Memᴰ}
use mathlib.Core.List.Memᴰ
use mathlib.Core.Path.{subst}
use oidc_test_idp.Prelude.{
  Bool, any, none, Option-cases, String, ◌==◌, eq_iff, ◌≡◌, ◌⊎◌, refl, true, some, [], ◌∷◌, inl,
  inr, arith, Bool-cases, if◌then◌else◌, pos, zero, suc, negsuc, ℤ,
}
use oidc_test_idp.Table.{Table, get}
use oidc_test_idp.Platform.{Platform}
use oidc_test_idp.Db.{Error, ok, err, query, new_string, SigningKeyRow, World}
use oidc_test_idp.Storage.Keys.{
  Keys, first, key_of_row, load_active_key_by_alg, store_key, generate_signing_key, KeyLibrary,
  Made, generator, SigningKey, is_supported_alg, is_one, active_rows, rows_for, parse_private_pem,
}

-- What the library promises: PEM and PKCS #8 are read back, and the order of the rows is an order
-- of them, which loses none and adds none.
pub record KeyRoundTrips {Signer : Type 0} (library : KeyLibrary Signer) : Type 0 where
  pub pem :
      (bytes : String)
      → library.pem_decode (library.pem_encode "PRIVATE KEY" bytes) ≡ some ("PRIVATE KEY", bytes)
  pub pkcs8 :
      (k : Signer) (der : String)
      → library.marshal_pkcs8 k ≡ some der
      → library.parse_pkcs8 der ≡ some k
  pub order :
      (q : String × SigningKeyRow → Bool) (t : Table SigningKeyRow)
      → any q (library.newest_first t) ≡ any q t
  pub from :
      (e : String × SigningKeyRow) (t : Table SigningKeyRow)
      → Memᴰ e (library.newest_first t)
      → Memᴰ e t

-- The key pair is one that the generator of the algorithm returns.
pub record IsGenerated {Signer : Type 0} (made : Made Signer) (alg : String) (signer : Signer)
    : Type 0 where
  pub ecdsa : alg ≡ "ES256" → made.ecdsa ≡ some signer
  pub rsa : alg ≡ "RS256" → made.rsa ≡ some signer

pub generator-IsGenerated :
    {Signer : Type 0}
    → (made : Made Signer) (alg : String) (signer : Signer) → generator made alg ≡ some signer
    → IsGenerated made alg signer
generator-IsGenerated made alg signer h = record {
  ecdsa = λ e. subst (λ a. generator made a ≡ some signer) e h;
  rsa = λ e. subst (λ a. generator made a ≡ some signer) e h;
}

supported-cases : (alg : String) → is_supported_alg alg ≡ true → (alg ≡ "RS256") ⊎ (alg ≡ "ES256")
unfolding is_supported_alg
supported-cases alg h = elim (Bool-cases ("RS256" == alg)) [
  | inl e ↦ inl (ground (arith, eq_iff "RS256" alg))
  | inr e ↦ inr (ground (arith, eq_iff "ES256" alg))
]

pub generator_lem :
    {Signer : Type 0}
    → (made : Made Signer) (alg : String) (signer : Signer) → is_supported_alg alg ≡ true
    → IsGenerated made alg signer
    → generator made alg ≡ some signer
generator_lem made alg signer supported g = elim (supported-cases alg supported) [
  | inl e ↦ rw e (g.rsa e)
  | inr e ↦ rw e (g.ecdsa e)
]

is_one-pos : (n : ℤ) → is_one n ≡ true → n ≡ pos 1
is_one-pos (pos zero) h = ground arith
is_one-pos (pos (suc zero)) h = refl
is_one-pos (pos (suc (suc n))) h = ground arith
is_one-pos (negsuc n) h = ground arith

-- A row of the active ones is a row, and active.
pub active_rows-mem :
    (e : String × SigningKeyRow) (t : Table SigningKeyRow)
    → Memᴰ e (active_rows t)
    → Memᴰ e t × (e.1.active ≡ pos 1)
unfolding active_rows
active_rows-mem e [] h = elim h [ ]
active_rows-mem e ((id, row) ∷ t) h = elim (Bool-cases (is_one row.active)) [
  | inl f ↦
      elim (Memᴰ.cases_cons
        (subst (λ b. Memᴰ e (if b then (id, row) ∷ active_rows t else active_rows t)) f h)) [
          | inl same ↦ (Memᴰ.head same, rw same (is_one-pos row.active f))
          | inr m ↦ (Memᴰ.tail (active_rows-mem e t m).0, (active_rows-mem e t m).1)
        ]
  | inr f ↦
      let m = subst (λ b. Memᴰ e (if b then (id, row) ∷ active_rows t else active_rows t)) f h in
      (Memᴰ.tail (active_rows-mem e t m).0, (active_rows-mem e t m).1)
]

pub rows_for-mem :
    (alg : String) (e : String × SigningKeyRow) (t : Table SigningKeyRow)
    → Memᴰ e (rows_for alg t)
    → Memᴰ e t × (e.1.algorithm ≡ alg)
unfolding rows_for
rows_for-mem alg e [] h = elim h [ ]
rows_for-mem alg e ((id, row) ∷ t) h = elim (Bool-cases (row.algorithm == alg)) [
  | inl f ↦
      elim (Memᴰ.cases_cons
        (subst (λ b. Memᴰ e (if b then (id, row) ∷ rows_for alg t else rows_for alg t)) f h)) [
          | inl same ↦ (Memᴰ.head same, rw same (ground (arith, eq_iff row.algorithm alg)))
          | inr m ↦ (Memᴰ.tail (rows_for-mem alg e t m).0, (rows_for-mem alg e t m).1)
        ]
  | inr f ↦
      let m = subst (λ b. Memᴰ e (if b then (id, row) ∷ rows_for alg t else rows_for alg t)) f h in
      (Memᴰ.tail (rows_for-mem alg e t m).0, (rows_for-mem alg e t m).1)
]

module _ (p : Platform) {Signer : Type 0} (library : KeyLibrary Signer) where
  -- An active row of the algorithm whose PEM is the key.
  pub record IsStoredKey (alg : String) (w : World) (k : SigningKey Signer) : Type 0 where
    pub row : SigningKeyRow
    pub here : Memᴰ (k.id, row) w.signing_keys
    pub active : row.active ≡ pos 1
    pub same_algorithm : row.algorithm ≡ alg
    pub same_key : parse_private_pem p library row.private_pem ≡ some k.signer

module _ (p : Platform) {Signer : Type 0} (library : KeyLibrary Signer)
    (trips : KeyRoundTrips library) where
  -- Where the key of an algorithm comes from: the cache; else an active row of the algorithm; else,
  -- if no such row loads, the generator of the algorithm, under a new id.
  pub data Origin (keys : Keys Signer) (made : Made Signer) (alg : String) (w : World)
      (k : SigningKey Signer) : Type 0 where
    from_cache : get alg keys.keys_by_alg ≡ some k → Origin keys made alg w k
    from_row :
        get alg keys.keys_by_alg ≡ none → IsStoredKey p library alg w k → Origin keys made alg w k
    from_generator :
        get alg keys.keys_by_alg ≡ none
        → (e : Error) → (load_active_key_by_alg p library alg w).0 ≡ err e
        → IsGenerated made alg k.signer
        → k.id ≡ p.uuid w.ids
        → Origin keys made alg w k

  pub generated_lem :
      (made : Made Signer) (alg : String) (w : World) (k : SigningKey Signer)
      → (generate_signing_key p library made alg w).0 ≡ ok k
      → (k.algorithm ≡ alg) × IsGenerated made alg k.signer × (k.id ≡ p.uuid w.ids)
  unfolding generate_signing_key store_key new_string
  generated_lem made alg w k h = elim (Option-cases (generator made alg)) [
    | inl e ↦ ground arith
    | inr (s, e) ↦
        (ground arith, generator-IsGenerated made alg k.signer (ground arith), ground arith)
  ]

  pub load-ids : (alg : String) (w : World) → (load_active_key_by_alg p library alg w).1.ids ≡ w.ids
  unfolding load_active_key_by_alg query
  load-ids alg w = ground arith

  first-mem : (t : Table SigningKeyRow) (e : String × SigningKeyRow) → first t ≡ some e → Memᴰ e t
  first-mem [] e h = ground arith
  first-mem (x ∷ t) e h = Memᴰ.head (ground arith)

  pub loaded_lem :
      (alg : String) (w : World) (k : SigningKey Signer)
      → (load_active_key_by_alg p library alg w).0 ≡ ok k
      → (k.algorithm ≡ alg) × IsStoredKey p library alg w k
  unfolding load_active_key_by_alg key_of_row query
  loaded_lem alg w k h =
      elim (Option-cases
        (first (library.newest_first (rows_for alg (active_rows w.signing_keys))))) [
          | inl e ↦ ground arith
          | inr ((id, row), e) ↦
              let m =
                rows_for-mem alg (id, row) (active_rows w.signing_keys)
                  (trips.from (id, row) _ (first-mem _ (id, row) e)) in
              let n = active_rows-mem (id, row) w.signing_keys m.0 in
              (
                ground arith,
                record {
                  row = row;
                  here = subst (λ i. Memᴰ (i, row) w.signing_keys) (ground arith) n.0;
                  active = n.1;
                  same_algorithm = m.1;
                  same_key = ground arith;
                },
              )
        ]
