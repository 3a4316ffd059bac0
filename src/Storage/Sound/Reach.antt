-- ===== src/Storage/Sound/Reach.antt =====
-- Histories of the writing operations of internal/storage, and soundness along them.
use oidc_test_idp.Prelude.{ℕ, String, List}
use oidc_test_idp.Models.{User, Client, OidcAuthRequest}
use oidc_test_idp.Platform.{Platform, RoundTrips}
use oidc_test_idp.Db.{World}
use oidc_test_idp.Repo.Clients.{save_client, delete_client}
use oidc_test_idp.Repo.Settings.{set_setting}
use oidc_test_idp.Repo.Users.{save_user, delete_user}
use oidc_test_idp.Storage.AuthRequests.{
  create_auth_request, save_auth_code, delete_auth_request, set_auth_request_user,
  complete_auth_request,
}
use oidc_test_idp.Storage.Tokens.{
  TokenRequest, create_access_token, create_access_and_refresh_tokens,
}
use oidc_test_idp.Storage.Revocation.{revoke_token, terminate_session}
use oidc_test_idp.Storage.Device.{
  store_device_authorization, complete_device_authorization, deny_device_authorization,
}
use oidc_test_idp.Storage.Keys.{KeyLibrary, Made, Keys, ensure_key_for_alg, rotate_signing_key}
use oidc_test_idp.Storage.Sound.{IsSound}
use oidc_test_idp.Storage.Sound.Operations.{
  save_client-IsSound, delete_client-IsSound, set_setting-IsSound, save_user-IsSound,
  erase_user-IsSound, save_auth_code-IsSound,
}
use oidc_test_idp.Storage.Sound.Tokens.{
  terminate_session-IsSound, create_access_token-IsSound, create_access_and_refresh_tokens-IsSound,
  revoke_token-IsSound,
}
use oidc_test_idp.Storage.Sound.Requests.{
  create_auth_request-IsSound, set_auth_request_user-IsSound, complete_auth_request-IsSound,
  delete_auth_request-IsSound, store_device_authorization-IsSound,
  complete_device_authorization-IsSound, deny_device_authorization-IsSound,
  ensure_key_for_alg-IsSound, rotate_signing_key-IsSound,
}

-- The operations of the storage that write, with their arguments.
pub data Operation (Signer : Type 0) : Type 0 where
  saves_client : Client → Operation Signer
  saves_user : User → Operation Signer
  deletes_client deletes_user : String → Operation Signer
  sets_setting : String → String → Operation Signer
  creates_request : OidcAuthRequest → String → Operation Signer
  saves_code sets_user completes_request : String → String → Operation Signer
  deletes_request : String → Operation Signer
  creates_token : TokenRequest → Operation Signer
  creates_tokens : TokenRequest → String → Operation Signer
  ends_session : String → String → Operation Signer
  revokes : String → String → String → Operation Signer
  stores_device : String → String → String → ℕ → List String → Operation Signer
  approves_device : String → String → Operation Signer
  denies_device : String → Operation Signer
  ensures_key rotates_key : Keys Signer → Made Signer → String → Operation Signer

module _ (p : Platform) {Signer : Type 0} (library : KeyLibrary Signer) where
  -- The world after the operation, whatever its result.
  pub perform : Operation Signer → World → World
  perform (saves_client c) w = (save_client p c w).1
  perform (saves_user u) w = (save_user p u w).1
  perform (deletes_client id) w = (delete_client p id w).1
  perform (deletes_user id) w = (delete_user p id w).1
  perform (sets_setting k v) w = (set_setting p k v w).1
  perform (creates_request req user_id) w = (create_auth_request p req user_id w).1
  perform (saves_code id code) w = (save_auth_code p id code w).1
  perform (sets_user id user_id) w = (set_auth_request_user p id user_id w).1
  perform (completes_request id user_id) w = (complete_auth_request p id user_id w).1
  perform (deletes_request id) w = (delete_auth_request p id w).1
  perform (creates_token request) w = (create_access_token p request w).1
  perform (creates_tokens request current) w =
      (create_access_and_refresh_tokens p request current w).1
  perform (ends_session user_id client_id) w = (terminate_session p user_id client_id w).1
  perform (revokes token user_id client_id) w = (revoke_token p token user_id client_id w).1
  perform (stores_device client_id device_code user_code expires scopes) w =
      (store_device_authorization p client_id device_code user_code expires scopes w).1
  perform (approves_device user_code subject) w =
      (complete_device_authorization p user_code subject w).1
  perform (denies_device user_code) w = (deny_device_authorization p user_code w).1
  perform (ensures_key keys made alg) w = (ensure_key_for_alg p library keys made alg w).1
  perform (rotates_key keys made alg) w = (rotate_signing_key p library keys made alg w).1

  -- A world that operations lead to from another.
  pub data Reach (w : World) : World → Type 0 where
    here : Reach w w
    next : {q : World} → Reach w q → (o : Operation Signer) → Reach w (perform o q)

  perform-IsSound :
      RoundTrips p
      → (o : Operation Signer) (w : World) → IsSound p w.db
      → IsSound p (perform o w).db
  unfolding perform
  perform-IsSound trips (saves_client c) w = (save_client-IsSound p c).at w
  perform-IsSound trips (saves_user u) w = (save_user-IsSound p u).at w
  perform-IsSound trips (deletes_client id) w = (delete_client-IsSound p id).at w
  perform-IsSound trips (deletes_user id) w = (erase_user-IsSound p id).at w
  perform-IsSound trips (sets_setting k v) w = (set_setting-IsSound p k v).at w
  perform-IsSound trips (creates_request req user_id) w =
      (create_auth_request-IsSound p trips req user_id).at w
  perform-IsSound trips (saves_code id code) w = (save_auth_code-IsSound p id code).at w
  perform-IsSound trips (sets_user id user_id) w =
      (set_auth_request_user-IsSound p trips id user_id).at w
  perform-IsSound trips (completes_request id user_id) w =
      (complete_auth_request-IsSound p trips id user_id).at w
  perform-IsSound trips (deletes_request id) w = (delete_auth_request-IsSound p id).at w
  perform-IsSound trips (creates_token request) w = (create_access_token-IsSound p request).at w
  perform-IsSound trips (creates_tokens request current) w =
      (create_access_and_refresh_tokens-IsSound p request current).at w
  perform-IsSound trips (ends_session user_id client_id) w =
      (terminate_session-IsSound p user_id client_id).at w
  perform-IsSound trips (revokes token user_id client_id) w =
      (revoke_token-IsSound p token user_id client_id).at w
  perform-IsSound trips (stores_device client_id device_code user_code expires scopes) w =
      (store_device_authorization-IsSound p client_id device_code user_code expires scopes).at w
  perform-IsSound trips (approves_device user_code subject) w =
      (complete_device_authorization-IsSound p user_code subject).at w
  perform-IsSound trips (denies_device user_code) w =
      (deny_device_authorization-IsSound p user_code).at w
  perform-IsSound trips (ensures_key keys made alg) w =
      (ensure_key_for_alg-IsSound p library keys made alg).at w
  perform-IsSound trips (rotates_key keys made alg) w =
      (rotate_signing_key-IsSound p library keys made alg).at w

  -- When the texts round-trip, every world that a history of the storage's writing operations
  -- leads to from a sound database has a sound database, also when statements of the driver fail:
  -- no two devices share a user code, no two users a name, the stored auth requests have the ids
  -- of their rows, and every signing key has a supported algorithm.
  pub Reach-IsSound : {w q : World} → RoundTrips p → Reach w q → IsSound p w.db → IsSound p q.db
  Reach-IsSound trips here s = s
  Reach-IsSound trips (next r o) s = perform-IsSound trips o _ (Reach-IsSound trips r s)
