-- ===== src/Examples/Keys.antt =====
-- Examples for the signing keys.
use oidc_test_idp.Prelude.{
  String, ◌≡◌, refl, ◌||◌, any, Bool, none, some, List, [], ◌∷◌, eq_iff, arith,
}
use oidc_test_idp.Table.{get, put, insert}
use oidc_test_idp.Db.{World, ok, query, exec, new_string}
use oidc_test_idp.Storage.Keys.{
  KeyLibrary, Made, load_active_key_by_alg, generate_signing_key, store_key, rows_for, SigningKey,
  Keys, is_supported_alg, encode_private_pem, new_row, active_rows, parse_private_pem, key_of_row,
  parse_rows, load_all_signing_keys, key_set, rotate_signing_key, signing_key, ensure_key_for_alg,
}
use oidc_test_idp.Storage.Keys.Published.{rotate_signing_key-key_set}
use oidc_test_idp.Storage.Keys.Origin.{KeyRoundTrips, IsGenerated, generator-IsGenerated}
use oidc_test_idp.Storage.Keys.Cache.{
  IsSorted, IsEnsured, ensure_key_for_alg-IsEnsured, IsSigned, signing_key-IsSigned,
}
use oidc_test_idp.Sample.{sample, sample-Healthy}
use oidc_test_idp.Examples.Fixtures.{empty_db, at_start}

-- A library whose keys are their own PEM texts.
abbrev pub plain_keys : KeyLibrary String
plain_keys = record {
  pem_encode = λ type bytes. bytes;
  pem_decode = λ s. some ("PRIVATE KEY", s);
  marshal_pkcs8 = λ k. some k;
  parse_pkcs1 = λ s. none;
  parse_ec = λ s. none;
  parse_pkcs8 = λ s. some s;
  newest_first = λ t. t;
  datetime_now = λ n. "now";
}

pub plain_keys-KeyRoundTrips : KeyRoundTrips plain_keys
plain_keys-KeyRoundTrips = record {
  pem = λ bytes. refl;
  pkcs8 = λ k der h. cc;
  order = λ q t. refl;
  from = λ e t h. h;
}

abbrev pub old_key : SigningKey String
old_key = record { id = "k0"; algorithm = "RS256"; signer = "old" }

abbrev pub keys : Keys String
keys = record { current = old_key; keys_by_alg = ("RS256", old_key) ∷ [] }

abbrev pub signing : World
signing =
    at_start (record empty_db {
      signing_keys = ("k0", new_row sample plain_keys "RS256" "old" "then") ∷ [];
    })

loads : (load_all_signing_keys sample plain_keys signing).0 ≡ ok (old_key ∷ [])
unfolding load_all_signing_keys parse_rows key_of_row parse_private_pem active_rows query
loads = refl

-- An ECDSA key is made; the RSA generator would fail.
abbrev pub made_new : Made String
made_new = record { ecdsa = some "new"; rsa = none }

pub new-IsGenerated : IsGenerated made_new "ES256" "new"
new-IsGenerated = generator-IsGenerated made_new "ES256" "new" refl

rotate_signing_key-key_set_example :
    (after : Keys String) × (shown_keys : List (SigningKey String)) × ((rotate_signing_key sample
        plain_keys keys made_new "ES256" signing).0
      ≡ ok ("u", after))
    × (after.current ≡ record { id = "u"; algorithm = "ES256"; signer = "new" })
    × ((key_set sample plain_keys after
          (rotate_signing_key sample plain_keys keys made_new "ES256" signing).1).0
        ≡ ok shown_keys)
    × ((q : SigningKey String → Bool)
        → any q shown_keys
          ≡ (any q (old_key ∷ []) || q (record { id = "u"; algorithm = "ES256"; signer = "new" })))
unfolding get is_supported_alg encode_private_pem
rotate_signing_key-key_set_example =
    rotate_signing_key-key_set plain_keys sample sample-Healthy plain_keys-KeyRoundTrips made_new
      "new" "ES256" "new" signing refl new-IsGenerated refl refl keys (old_key ∷ []) loads

pub keys-IsSorted : IsSorted keys
unfolding get
keys-IsSorted alg k h = ground (arith, eq_iff "RS256" alg)

signing_key-IsSigned_example :
    (k : SigningKey String) × (after : Keys String) × ((signing_key sample plain_keys keys made_new
        "ES256" signing).0
      ≡ ok (k, after))
    × IsSigned sample plain_keys plain_keys-KeyRoundTrips keys made_new "ES256" signing k after
    × IsSorted after
signing_key-IsSigned_example =
    signing_key-IsSigned sample plain_keys plain_keys-KeyRoundTrips keys made_new "ES256" signing
      keys-IsSorted

ensured :
    (ensure_key_for_alg sample plain_keys keys made_new "ES256" signing).0
    ≡ ok (
      record { id = "u"; algorithm = "ES256"; signer = "new" },
      record keys {
        keys_by_alg =
            ("RS256", old_key)
            ∷ ("ES256", record { id = "u"; algorithm = "ES256"; signer = "new" })
            ∷ [];
      },
    )
unfolding ensure_key_for_alg load_active_key_by_alg generate_signing_key is_supported_alg store_key
    encode_private_pem new_string active_rows rows_for get put insert query exec
ensured = refl

ensure_key_for_alg-IsEnsured_example :
    IsEnsured sample plain_keys plain_keys-KeyRoundTrips keys made_new "ES256" signing
      (record { id = "u"; algorithm = "ES256"; signer = "new" })
      (record keys {
        keys_by_alg =
            ("RS256", old_key)
            ∷ ("ES256", record { id = "u"; algorithm = "ES256"; signer = "new" })
            ∷ [];
      })
ensure_key_for_alg-IsEnsured_example =
    ensure_key_for_alg-IsEnsured sample plain_keys plain_keys-KeyRoundTrips keys made_new "ES256"
      signing _ _ keys-IsSorted ensured
