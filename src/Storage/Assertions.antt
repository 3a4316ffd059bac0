-- ===== src/Storage/Assertions.antt =====
-- Keys of clients and requests without a user: the parts of internal/storage/storage.go that check
-- client assertions and serve the client credentials grant.
pub mod Registered
use oidc_test_idp.Prelude.{
  String, ◌==◌, Bool, ◌||◌, Option, none, some, List, [], ◌∷◌, if◌then◌else◌,
}
use oidc_test_idp.Platform.{Platform}
use oidc_test_idp.Models.{Client}
use oidc_test_idp.Db.{
  M, ◌>>=◌, ◌>>◌, pure, raise, or_error, client_not_found, wrong_service_user, no_jwks,
  jwks_invalid, jwks_key_not_found,
}
use oidc_test_idp.Repo.Clients.{get_client}
use oidc_test_idp.Storage.Claims.{UserInfo}

-- `oidc.JWTTokenRequest`, the fields that the code sets.
pub record JwtTokenRequest : Type 0 where
  pub subject : String
  pub audience : List String
  pub scopes : List String

module _ (p : Platform) where
  unfoldable pub client_credentials_token_request : String → List String → M JwtTokenRequest
  client_credentials_token_request client_id scopes = do
    _ ← or_error wrong_service_user (get_client p client_id)
    pure (record { subject = client_id; audience = client_id ∷ []; scopes = scopes })

  unfoldable pub set_userinfo_from_scopes : String → String → List String → UserInfo → M UserInfo
  set_userinfo_from_scopes user_id client_id scopes info = pure info

  -- `parse` is `json.Unmarshal` into a key set, none where it fails, then the set's `Key` method.
  module _ {Key : Type 0} (parse : String → Option (String → List Key)) where
    abbrev pub first_key : List Key → M Key
    first_key [] = raise jwks_key_not_found
    first_key (k ∷ ks) = pure k

    abbrev pub key_in : String → Option (String → List Key) → M Key
    key_in key_id none = raise jwks_invalid
    key_in key_id (some set) = first_key (set key_id)

    unfoldable pub get_key_by_id_and_client_id : String → String → M Key
    get_key_by_id_and_client_id key_id client_id = do
      c ← or_error client_not_found (get_client p client_id)
      if c.jwks == "" || c.jwks == "{}" then raise no_jwks else key_in key_id (parse c.jwks)
