-- ===== src/Storage/Assertions/Registered.antt =====
-- GetKeyByIDAndClientID (internal/storage/storage.go) after SaveClient.
use oidc_test_idp.Prelude.{
  String, ◌==◌, ◌≡◌, refl, ◌∙◌, Bool-cases, Option-cases, inl, inr, ◌||◌, Option, none, some, List,
  [], ◌∷◌, arith, if◌then◌else◌,
}
use oidc_test_idp.Table.{get, get-put}
use oidc_test_idp.Platform.{Platform, Healthy}
use oidc_test_idp.Models.{Client}
use oidc_test_idp.Db.{
  ClientRow, World, Result, ok, err, no_jwks, jwks_invalid, jwks_key_not_found, client_not_found,
}
use oidc_test_idp.Db.Statements.{exec_lem}
use oidc_test_idp.Repo.Clients.{client_row, scan_client, save_client, or_json_empty}
use oidc_test_idp.Repo.Clients.Runs.{get_client_lem}
use oidc_test_idp.Storage.Assertions.{first_key, get_key_by_id_and_client_id}

module _ (p : Platform) (healthy : Healthy p) {Key : Type 0}
    (parse : String → Option (String → List Key)) where
  abbrev pub chosen : List Key → Result Key
  chosen [] = err jwks_key_not_found
  chosen (k ∷ ks) = ok k

  abbrev pub parsed_key : String → Option (String → List Key) → Result Key
  parsed_key key_id none = err jwks_invalid
  parsed_key key_id (some set) = chosen (set key_id)

  -- What a key id names in the text of a key set.
  abbrev pub registered : String → String → Result Key
  registered key_id jwks =
      if jwks == "" || jwks == "{}" then err no_jwks else parsed_key key_id (parse jwks)

  first_key_lem : (ks : List Key) (v : World) → (first_key p parse ks v).0 ≡ chosen ks
  first_key_lem [] v = refl
  first_key_lem (k ∷ ks) v = refl

  abbrev key_of : String → Option ClientRow → Result Key
  key_of key_id none = err client_not_found
  key_of key_id (some row) = registered key_id row.jwks

  get_key_lem :
      (key_id id : String) (w : World)
      → (get_key_by_id_and_client_id p parse key_id id w).0 ≡ key_of key_id (get id w.clients)
  unfolding get_key_by_id_and_client_id scan_client
  get_key_lem key_id id w = elim (Option-cases (get id w.clients)) [
    | inl e ↦ ground (arith, get_client_lem p healthy id w, e)
    | inr (row, e) ↦ elim (Bool-cases (row.jwks == "" || row.jwks == "{}")) [
      | inl f ↦ rw (get_client_lem p healthy id w, e, f) refl
      | inr f ↦ elim (Option-cases (parse row.jwks)) [
        | inl n ↦ rw (get_client_lem p healthy id w, e, f, n) refl
        | inr (set, g) ↦ rw (get_client_lem p healthy id w, e, f, g) (first_key_lem (set key_id) _)
      ]
    ]
  ]

  -- An empty key set is written as "{}", which registers no key either.
  registered-or_json_empty :
      (key_id jwks : String) → registered key_id (or_json_empty jwks) ≡ registered key_id jwks
  unfolding or_json_empty
  registered-or_json_empty key_id jwks = elim (Bool-cases (jwks == "")) [
    | inl e ↦ rw e refl
    | inr e ↦ rw (e, e) refl
  ]

  key_of-client_row :
      (key_id : String) (c : Client)
      → key_of key_id (some (client_row p c)) ≡ registered key_id c.jwks
  unfolding client_row
  key_of-client_row key_id c = registered-or_json_empty key_id c.jwks

  -- While the driver works, after SaveClient the key that checks that client's assertions is the
  -- first that the saved key set has under the key id, and the error of an absent or invalid set
  -- or an unknown id otherwise; for another client it is the key from before.
  pub get_key-save_client :
      (c : Client) (key_id id : String) (w : World)
      → (get_key_by_id_and_client_id p parse key_id id (save_client p c w).1).0 ≡ (
          if c.id == id
          then registered key_id c.jwks
          else (get_key_by_id_and_client_id p parse key_id id w).0)
  unfolding save_client
  get_key-save_client c key_id id w =
      get_key_lem key_id id (save_client p c w).1
      ∙ rw
          (
            exec_lem p healthy _ w,
            get-put c.id id (client_row p c) w.clients,
            get_key_lem key_id id w,
          )
          (elim (Bool-cases (c.id == id)) [
            | inl e ↦ rw e (key_of-client_row key_id c)
            | inr e ↦ rw e refl
          ])
