-- ===== src/Storage/Keys/Start.antt =====
-- The signing key at the start, and the keys that the discovery document and the admin page show.
pub mod Algorithms
use oidc_test_idp.Prelude.{
  ℕ, String, ◌==◌, Bool, Option, none, some, List, [], ◌∷◌, if◌then◌else◌, is_nonzero, any,
}
use oidc_test_idp.Table.{Table}
use oidc_test_idp.Platform.{Platform}
use oidc_test_idp.Db.{SigningKeyRow, Db, Result, ok, err, M, ◌>>=◌, pure, attempt, query}
use oidc_test_idp.Storage.Keys.{
  KeyLibrary, Made, SigningKey, Keys, active_rows, first, unmarshalled, key_of_row,
  load_all_signing_keys, generate_signing_key,
}

pub record KeyInfo : Type 0 where
  pub id : String
  pub algorithm : String
  pub active : Bool
  pub created_at : String

module _ (p : Platform) {Signer : Type 0} (library : KeyLibrary Signer) where
  -- Any failure of the query, not only an empty table, is followed by a new key.
  abbrev loaded_or_new : Made Signer → Result (String × SigningKeyRow) → M (SigningKey Signer)
  loaded_or_new made (err _) = generate_signing_key p library made "RS256"
  loaded_or_new made (ok found) =
      λ w. (unmarshalled (key_of_row p library found.0 found.1.algorithm found.1.private_pem), w)

  unfoldable pub load_or_create_signing_key : Made Signer → M (SigningKey Signer)
  unfolding active_rows
  load_or_create_signing_key made = do
    found ← attempt (query p (λ d. first (library.newest_first (active_rows d.signing_keys))))
    loaded_or_new made found

  unfoldable pub new_storage : Made Signer → M (Keys Signer)
  new_storage made = do
    key ← load_or_create_signing_key made
    pure (record { current = key; keys_by_alg = (key.algorithm, key) ∷ [] })

  -- The algorithms that were not seen, in the order of the keys.
  unfoldable pub unseen : List String → List (SigningKey Signer) → List String
  unseen seen [] = []
  unseen seen (k ∷ ks) =
      let next = unseen (k.algorithm ∷ seen) ks in
      let rest = unseen seen ks in
      if any (λ a. a == k.algorithm) seen then rest else k.algorithm ∷ next

  abbrev pub algorithms_of : Keys Signer → Result (List (SigningKey Signer)) → List String
  algorithms_of keys (ok (k ∷ ks)) = unseen [] (k ∷ ks)
  algorithms_of keys _ = keys.current.algorithm ∷ []

  unfoldable pub signature_algorithms : Keys Signer → M (List String)
  unfolding unseen
  signature_algorithms keys = do
    loaded ← attempt (load_all_signing_keys p library)
    pure (algorithms_of keys loaded)

  -- `reformat` is `time.Parse(time.RFC3339, …)`, then `Format("2006-01-02 15:04:05")`: none where
  -- the text does not parse.
  module _ (reformat : String → Option String) where
    unfoldable pub key_infos : Table SigningKeyRow → List KeyInfo
    key_infos [] = []
    key_infos ((id, row) ∷ t) =
        record {
          id = id;
          algorithm = row.algorithm;
          active = is_nonzero row.active;
          created_at = elim (reformat row.created_at) [ none ↦ row.created_at | some s ↦ s ];
        }
        ∷ key_infos t

    unfoldable pub list_keys : M (List KeyInfo)
    unfolding key_infos
    list_keys = do
      rows ← query p (λ d. some (library.newest_first d.signing_keys))
      pure (key_infos rows)
