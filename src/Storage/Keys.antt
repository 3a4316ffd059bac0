-- ===== src/Storage/Keys.antt =====
-- Signing keys: internal/storage/keys.go, and the key section of internal/storage/storage.go.
-- `Storage.key` and `Storage.keysByAlg` are the record Keys, which an operation takes and gives
-- back; the lock `keyMu` makes each operation one step.
pub mod Origin
pub mod Rows
pub mod Published
pub mod Cache
pub mod Start
use oidc_test_idp.Prelude.{
  ℕ, zero, suc, String, ◌==◌, Bool, ◌&&◌, not, Option, none, some, List, [], ◌∷◌, if◌then◌else◌, ℤ,
  pos, negsuc, any, true, false,
}
use oidc_test_idp.Table
use oidc_test_idp.Table.{Table}
use oidc_test_idp.Platform.{Platform}
use oidc_test_idp.Db.{
  SigningKeyRow, Db, Error, Result, ok, err, unsupported_algorithm, generation, marshal, unmarshal,
  M, ◌>>=◌, ◌>>◌, pure, raise, attempt, query, exec, new_string,
}

abbrev pub supported_signature_algorithms : List String
supported_signature_algorithms = "RS256" ∷ "ES256" ∷ []

unfoldable pub is_supported_alg : String → Bool
is_supported_alg alg = any (λ a. a == alg) supported_signature_algorithms

-- crypto/x509 and encoding/pem, and what the database does with the rows: the order of `ORDER BY
-- created_at DESC`, and the default of created_at, by statement.
pub record KeyLibrary (Signer : Type 0) : Type 0 where
  pub pem_encode : String → String → String
  pub pem_decode : String → Option (String × String)
  pub marshal_pkcs8 : Signer → Option String
  pub parse_pkcs1 : String → Option Signer
  pub parse_ec : String → Option Signer
  pub parse_pkcs8 : String → Option Signer
  pub newest_first : Table SigningKeyRow → Table SigningKeyRow
  pub datetime_now : ℕ → String

pub record SigningKey (Signer : Type 0) : Type 0 where
  pub id : String
  pub algorithm : String
  pub signer : Signer

pub record Keys (Signer : Type 0) : Type 0 where
  pub current : SigningKey Signer
  pub keys_by_alg : Table (SigningKey Signer)

abbrev pub is_one : ℤ → Bool
is_one (pos (suc zero)) = true
is_one _ = false

-- What `ecdsa.GenerateKey` and `rsa.GenerateKey` return, none where they fail.
pub record Made (Signer : Type 0) : Type 0 where
  pub ecdsa : Option Signer
  pub rsa : Option Signer

-- `switch alg`
abbrev pub generator : {Signer : Type 0} → Made Signer → String → Option Signer
generator made alg = if alg == "ES256" then made.ecdsa else made.rsa

-- `WHERE active = 1`
unfoldable pub active_rows : Table SigningKeyRow → Table SigningKeyRow
active_rows [] = []
active_rows ((id, row) ∷ t) =
    let rest = active_rows t in if is_one row.active then (id, row) ∷ rest else rest

-- `AND algorithm = ?`
unfoldable pub rows_for : String → Table SigningKeyRow → Table SigningKeyRow
rows_for alg [] = []
rows_for alg ((id, row) ∷ t) =
    let rest = rows_for alg t in if row.algorithm == alg then (id, row) ∷ rest else rest

-- `LIMIT 1`
abbrev pub first : Table SigningKeyRow → Option (String × SigningKeyRow)
first [] = none
first (e ∷ t) = some e

abbrev pub unmarshalled {ℓ} : {A : Type ℓ} → Option A → Result A
unmarshalled none = err unmarshal
unmarshalled (some a) = ok a

module _ (p : Platform) {Signer : Type 0} (library : KeyLibrary Signer) where
  unfoldable pub encode_private_pem : Signer → Option String
  encode_private_pem key = elim (library.marshal_pkcs8 key) [
    | none ↦ none
    | some der ↦ some (library.pem_encode "PRIVATE KEY" der)
  ]

  unfoldable pub parse_private_pem : String → Option Signer
  parse_private_pem s = elim (library.pem_decode s) [
    | none ↦ none
    | some (type, bytes) ↦
        if type == "RSA PRIVATE KEY"
        then library.parse_pkcs1 bytes
        else if type == "EC PRIVATE KEY"
        then library.parse_ec bytes
        else library.parse_pkcs8 bytes
  ]

  -- A row as a key; none where its PEM does not parse.
  unfoldable pub key_of_row : String → String → String → Option (SigningKey Signer)
  key_of_row id algorithm pem = elim (parse_private_pem pem) [
    | none ↦ none
    | some key ↦ some (record { id = id; algorithm = algorithm; signer = key })
  ]

  unfoldable pub parse_rows : Table SigningKeyRow → Option (List (SigningKey Signer))
  parse_rows [] = some []
  parse_rows ((id, row) ∷ t) =
      let rest = parse_rows t in
      elim (key_of_row id row.algorithm row.private_pem) [
        | none ↦ none
        | some k ↦ elim rest [ none ↦ none | some ks ↦ some (k ∷ ks) ]
      ]

  unfoldable pub load_all_signing_keys : M (List (SigningKey Signer))
  unfolding parse_rows active_rows
  load_all_signing_keys = do
    rows ← query p (λ d. some (library.newest_first (active_rows d.signing_keys)))
    λ w. (unmarshalled (parse_rows rows), w)

  unfoldable pub load_active_key_by_alg : String → M (SigningKey Signer)
  unfolding key_of_row active_rows rows_for
  load_active_key_by_alg alg = do
    found ← query p (λ d. first (library.newest_first (rows_for alg (active_rows d.signing_keys))))
    λ w. (unmarshalled (key_of_row found.0 alg found.1.private_pem), w)

  abbrev pub new_row : String → String → String → SigningKeyRow
  new_row algorithm pem created_at = record {
    algorithm = algorithm;
    private_pem = pem;
    active = pos 1;
    created_at = created_at;
  }

  abbrev pub add_key : String → SigningKeyRow → Db → Option Db
  add_key id row d = elim (Table.insert id row d.signing_keys) [
    | none ↦ none
    | some t ↦ some (record d { signing_keys = t })
  ]

  unfoldable pub store_key : String → Signer → Option String → M (SigningKey Signer)
  store_key alg signer none = raise marshal
  store_key alg signer (some pem) = do
    id ← new_string p
    λ w.
        (exec p (add_key id (new_row alg pem (library.datetime_now w.statements)))
            >> pure (record { id = id; algorithm = alg; signer = signer }))
          w

  unfoldable pub generate_signing_key : Made Signer → String → M (SigningKey Signer)
  unfolding encode_private_pem is_supported_alg
  generate_signing_key made alg =
      if not (is_supported_alg alg)
      then raise unsupported_algorithm
      else elim (generator made alg) [
        | none ↦ raise generation
        | some signer ↦ store_key alg signer (encode_private_pem signer)
      ]

  abbrev cached : Keys Signer → SigningKey Signer → Keys Signer
  cached keys k = record keys { keys_by_alg = Table.put k.algorithm k keys.keys_by_alg }

  abbrev pub or_generate :
      Keys Signer
      → Made Signer
      → String
      → Result (SigningKey Signer)
      → M (SigningKey Signer × Keys Signer)
  or_generate keys made alg (ok k) =
      pure (k, record keys { keys_by_alg = Table.put alg k keys.keys_by_alg })
  or_generate keys made alg (err _) = do
    k ← generate_signing_key made alg
    pure (k, record keys { keys_by_alg = Table.put alg k keys.keys_by_alg })

  unfoldable pub ensure_key_for_alg :
      Keys Signer → Made Signer → String → M (SigningKey Signer × Keys Signer)
  ensure_key_for_alg keys made alg = elim (Table.get alg keys.keys_by_alg) [
    | some k ↦ pure (k, keys)
    | none ↦ do loaded ← attempt (load_active_key_by_alg alg); or_generate keys made alg loaded
  ]

  abbrev or_current :
      Keys Signer → Result (SigningKey Signer × Keys Signer) → SigningKey Signer × Keys Signer
  or_current keys (ok a) = a
  or_current keys (err _) = (keys.current, keys)

  -- `SigningKey`; `alg` is the context's, "" where it has none.
  unfoldable pub signing_key :
      Keys Signer → Made Signer → String → M (SigningKey Signer × Keys Signer)
  unfolding is_supported_alg
  signing_key keys made alg =
      if not (alg == "") && is_supported_alg alg
      then (do r ← attempt (ensure_key_for_alg keys made alg); pure (or_current keys r))
      else pure (keys.current, keys)

  abbrev pub or_fallback :
      Keys Signer → Result (List (SigningKey Signer)) → List (SigningKey Signer)
  or_fallback keys (ok (k ∷ ks)) = k ∷ ks
  or_fallback keys _ = keys.current ∷ []

  -- `KeySet`: the keys whose public halves are published.
  unfoldable pub key_set : Keys Signer → M (List (SigningKey Signer))
  key_set keys = do loaded ← attempt load_all_signing_keys; pure (or_fallback keys loaded)

  unfoldable pub rotate_signing_key : Keys Signer → Made Signer → String → M (String × Keys Signer)
  rotate_signing_key keys made alg = do
    key ← generate_signing_key made alg
    pure (key.id, record (cached keys key) { current = key })
