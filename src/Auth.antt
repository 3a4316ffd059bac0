-- ===== src/Auth.antt =====
-- internal/auth: the passwordless login, consent and device pages.
pub mod Consent
pub mod Flow
use oidc_test_idp.Prelude.{String, ◌==◌, Bool, if◌then◌else◌, ℕ, Option, none, some, List, []}
use oidc_test_idp.Http.{HttpRequest}
use oidc_test_idp.Table.{Table}
use oidc_test_idp.Models.{Client, User, AuthRequest, subject_or_id}
use oidc_test_idp.Platform.{Platform}
use oidc_test_idp.Db.{UserRow, Error, Result, ok, err, M, ◌>>=◌, pure, attempt}
use oidc_test_idp.Repo.Clients.{get_client}
use oidc_test_idp.Repo.Users.{get_user, list_users}
use oidc_test_idp.Storage.AuthRequests.{
  auth_request_by_id, delete_auth_request, set_auth_request_user, complete_auth_request,
}
use oidc_test_idp.Storage.Device.{
  DeviceAuthorizationState, get_device_authorization_by_user_code, complete_device_authorization,
  deny_device_authorization,
}

-- What a handler answers. A redirect to the consent page or to the provider's callback carries
-- the id of the auth request; a page carries what it shows of the state.
pub data Answer : Type 0 where
  -- `http.Error` with the status.
  failed : ℕ → Answer
  to_consent to_callback : String → Answer
  -- The template "message": granted or denied.
  approved denied : Answer
  -- The consent page: the auth request, the client, the name shown and the scopes.
  consent_page : String → String → String → List String → Answer
  -- The form for a user code, with the code and an error or without.
  enter_code unknown_code : String → Answer
  -- The accounts to choose from, for an auth request and for a user code.
  accounts_page select_user : String → List User → Answer

abbrev if_done : Answer → Result (Unit {0}) → M Answer
if_done a (ok _) = pure a
if_done a (err _) = pure (failed 500)

module _ (p : Platform) where
  -- Once the client of the auth request is looked up.
  unfoldable pub login_client : String → String → Result Client → M Answer
  login_client id user_id (err _) = pure (failed 400)
  login_client id user_id (ok c) =
      if c.require_consent
      then (do r ← attempt (set_auth_request_user p id user_id); if_done (to_consent id) r)
      else (do r ← attempt (complete_auth_request p id user_id); if_done (to_callback id) r)

  -- Once the auth request is looked up.
  unfoldable pub login_request : String → String → Result AuthRequest → M Answer
  login_request id user_id (err _) = pure (failed 400)
  login_request id user_id (ok req) = do
    c ← attempt (get_client p req.application_id)
    login_client id user_id c

  unfoldable pub do_login : HttpRequest → M Answer
  do_login r =
      if r.parses
      then (do
        req ← attempt (auth_request_by_id p (r.form "authRequestID"))
        login_request (r.form "authRequestID") (r.form "userID") req)
      else pure (failed 400)

  abbrev shown_name : String → Result User → String
  shown_name subject (ok u) = u.username
  shown_name subject (err _) = subject

  unfoldable pub consent_request : String → Result AuthRequest → M Answer
  consent_request id (err _) = pure (failed 400)
  consent_request id (ok req) = do
    u ← attempt (get_user p req.user_id)
    pure (consent_page id req.application_id (shown_name req.user_id u) req.scopes)

  unfoldable pub consent_page_handler : HttpRequest → M Answer
  consent_page_handler r = do
    req ← attempt (auth_request_by_id p (r.query "authRequestID"))
    consent_request (r.query "authRequestID") req

  -- Once the auth request is looked up.
  unfoldable pub decide : String → String → Result AuthRequest → M Answer
  decide id action (err _) = pure (failed 400)
  decide id action (ok req) =
      if action == "allow"
      then (do r ← attempt (complete_auth_request p id req.user_id); if_done (to_callback id) r)
      else (do _ ← attempt (delete_auth_request p id); pure denied)

  unfoldable pub do_consent : HttpRequest → M Answer
  do_consent r =
      if r.parses
      then (do
        req ← attempt (auth_request_by_id p (r.form "authRequestID"))
        decide (r.form "authRequestID") (r.form "action") req)
      else pure (failed 400)

  -- `users, _ := …`: nil on an error.
  abbrev listed : Result (List User) → List User
  listed (ok users) = users
  listed (err _) = []

  -- `sorted` is the order that the database gives to the users by name.
  module _ (sorted : Table UserRow → Table UserRow) where
    unfoldable pub select_account : HttpRequest → M Answer
    select_account r = do
      users ← attempt (list_users p sorted)
      pure (accounts_page (r.query "authRequestID") (listed users))

    abbrev known_code : String → Result DeviceAuthorizationState → M Answer
    known_code code (err _) = pure (unknown_code code)
    known_code code (ok _) = do
      users ← attempt (list_users p sorted)
      pure (select_user code (listed users))

    -- The error of `ParseForm` is dropped, and then the form is what was parsed.
    unfoldable pub device_user_code : HttpRequest → M Answer
    device_user_code r = if r.form "user_code" == "" then pure (enter_code "") else (do
      st ← attempt (get_device_authorization_by_user_code p (r.form "user_code"))
      known_code (r.form "user_code") st)

  -- The subject that the device's token gets.
  abbrev subject_for : String → Result User → String
  subject_for id (ok u) = subject_or_id u
  subject_for id (err _) = id

  unfoldable pub device_approve : HttpRequest → M Answer
  device_approve r =
      if r.parses
      then (if r.form "action" == "allow"
          then (do
            u ← attempt (get_user p (r.form "userID"))
            done ← attempt (
                complete_device_authorization p (r.form "user_code")
                  (subject_for (r.form "userID") u))
            if_done approved done)
          else (do _ ← attempt (deny_device_authorization p (r.form "user_code")); pure denied))
      else pure (failed 400)
