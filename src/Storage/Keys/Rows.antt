-- ===== src/Storage/Keys/Rows.antt =====
-- The rows of signing keys: which parse, and what a test of the parsed keys comes to.

use oidc_test_idp.Prelude.{
  String, ◌⊎◌, ◌≡◌, refl, Bool, true, false, ◌||◌, ◌&&◌, any, none, some, List, [], ◌∷◌, inl, inr,
  arith, Option-cases,
}
use oidc_test_idp.Table.{Table, get, put}
use oidc_test_idp.Platform.{Platform}
use oidc_test_idp.Db.{SigningKeyRow}
use oidc_test_idp.Storage.Keys.Origin.{KeyRoundTrips}
use oidc_test_idp.Storage.Keys.{
  KeyLibrary, SigningKey, is_one, active_rows, encode_private_pem, parse_private_pem, key_of_row,
  parse_rows,
}

pub keys-cases :
    {Signer : Type 0}
    → (ks : List (SigningKey Signer))
    → (ks ≡ []) ⊎ ((k : SigningKey Signer) × (rest : List (SigningKey Signer)) × (ks ≡ k ∷ rest))
keys-cases [] = inl refl
keys-cases (k ∷ rest) = inr (k, rest, refl)

pub active-put :
    (q : String × SigningKeyRow → Bool) (id : String) (row : SigningKeyRow)
    (t : Table SigningKeyRow)
    → get id t ≡ none
    → any q (active_rows (put id row t))
      ≡ (any q (active_rows t) || (is_one row.active && q (id, row)))
unfolding active_rows get put
active-put q id row [] h = ground arith
active-put q id row ((j, r) ∷ t) h = ground (arith, active-put q id row t)

module _ {Signer : Type 0} (library : KeyLibrary Signer) (p : Platform) where
  -- A row whose PEM does not parse.
  abbrev pub broken : String × SigningKeyRow → Bool
  broken e = elim (parse_private_pem p library e.1.private_pem) [ none ↦ true | some k ↦ false ]

  -- Whether the key that is in the row passes a test.
  abbrev pub row_passes : (SigningKey Signer → Bool) → String × SigningKeyRow → Bool
  row_passes q e = elim (parse_private_pem p library e.1.private_pem) [
    | none ↦ false
    | some s ↦ q (record { id = e.0; algorithm = e.1.algorithm; signer = s })
  ]

  pub parse_encode :
      KeyRoundTrips library
      → (k : Signer) (pem : String) → encode_private_pem p library k ≡ some pem
      → parse_private_pem p library pem ≡ some k
  unfolding encode_private_pem parse_private_pem
  parse_encode trips k pem h = elim (Option-cases (library.marshal_pkcs8 k)) [
    | inl e ↦ ground arith
    | inr (der, e) ↦ ground (arith, trips.pkcs8 k der e, trips.pem der)
  ]

  pub parse_rows-good :
      (t : Table SigningKeyRow)
      → any broken t ≡ false
      → (ks : List (SigningKey Signer)) × (parse_rows p library t ≡ some ks)
        × ((q : SigningKey Signer → Bool) → any q ks ≡ any (row_passes q) t)
  unfolding parse_rows key_of_row
  parse_rows-good [] h = ([], refl, λ q. refl)
  parse_rows-good ((i, row) ∷ t) h =
      elim (Option-cases (parse_private_pem p library row.private_pem)) [
        | inl e ↦ ground arith
        | inr (k, e) ↦
            let (ks, f, same) = parse_rows-good t (ground arith) in
            (
              record { id = i; algorithm = row.algorithm; signer = k } ∷ ks,
              ground arith,
              λ q. ground (arith, same q),
            )
      ]

  pub parse_rows-bad :
      (t : Table SigningKeyRow) (ks : List (SigningKey Signer))
      → parse_rows p library t ≡ some ks
      → any broken t ≡ false
  unfolding parse_rows key_of_row
  parse_rows-bad [] ks h = refl
  parse_rows-bad ((i, row) ∷ t) ks h =
      elim (Option-cases (parse_private_pem p library row.private_pem)) [
        | inl e ↦ ground arith
        | inr (k, e) ↦ elim (Option-cases (parse_rows p library t)) [
          | inl f ↦ ground arith
          | inr (ks', f) ↦ ground (arith, parse_rows-bad t ks' f)
        ]
      ]
