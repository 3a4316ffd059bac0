-- ===== src/Storage/AuthRequests.antt =====
-- Auth requests and codes of internal/storage/storage.go.
pub mod RoundTrip
pub mod Login
pub mod Codes
pub mod Runs
use oidc_test_idp.Prelude.{
  String, ◌==◌, Bool, true, false, Option, none, some, List, [], ◌∷◌, if◌then◌else◌, is_nonzero,
}
use oidc_test_idp.Table
use oidc_test_idp.Models.{
  User, subject_or_id, AuthRequest, OidcAuthRequest, auth_request_to_internal,
}
use oidc_test_idp.Platform.{Platform}
use oidc_test_idp.Db.{
  AuthRequestRow, Db, Error, no_rows, marshal, unmarshal, request_not_found, code_invalid,
  login_required, Result, ok, err, M, ◌>>=◌, ◌>>◌, pure, raise, attempt, or_error, query, exec,
  new_string, time_now, time_str, parse_time, bool_int,
}
use oidc_test_idp.Repo.Users.{get_user}

-- `len(authReq.Prompt) == 1 && authReq.Prompt[0] == "none"`
unfoldable pub only_none : List String → Bool
only_none [] = false
only_none (v ∷ []) = v == "none"
only_none (v ∷ w ∷ p) = false

abbrev pub of_option : {A : Type 0} → Error → Option A → M A
of_option e none = raise e
of_option e (some a) = pure a

abbrev pub missing_request : {A : Type 0} → Result A → M A
missing_request (ok a) = pure a
missing_request (err no_rows) = raise request_not_found
missing_request (err e) = raise e

-- `if u, uerr := s.db.GetUser(userID); uerr == nil { … }`
unfoldable pub stamp_user : Result User → AuthRequest → AuthRequest
unfolding subject_or_id
stamp_user (err _) req = req
stamp_user (ok u) req = record req {
  user_id = subject_or_id u;
  acr_value = u.acr;
  amr_values = u.amr;
}

abbrev pub set_codes : Db → Option (Table.Table String) → Option Db
set_codes d none = none
set_codes d (some codes) = some (record d { auth_codes = codes })

module _ (p : Platform) where
  unfoldable pub request_row : String → AuthRequest → AuthRequestRow
  unfolding time_str
  request_row data_text req = record {
    data_text = data_text;
    done = bool_int req.done;
    user_id = req.user_id;
    auth_time = time_str p req.auth_time;
  }

  unfoldable pub save_auth_request : AuthRequest → M Unit
  unfolding request_row
  save_auth_request req = do
    data_text ← of_option marshal (p.marshal_request req)
    exec p (λ d.
        some (record d {
          auth_requests = Table.put req.id (request_row data_text req) d.auth_requests;
        }))

  -- The columns overrule what the JSON holds.
  unfoldable pub scan_request : AuthRequestRow → AuthRequest → AuthRequest
  unfolding parse_time
  scan_request row req = record req {
    done = is_nonzero row.done;
    user_id = row.user_id;
    auth_time = parse_time p row.auth_time;
  }

  unfoldable pub load_auth_request : String → M AuthRequest
  unfolding scan_request
  load_auth_request id = do
    r ← attempt (query p (λ d. Table.get id d.auth_requests))
    row ← missing_request r
    req ← of_option unmarshal (p.unmarshal_request row.data_text)
    pure (scan_request row req)

  unfoldable pub create_auth_request : OidcAuthRequest → String → M AuthRequest
  unfolding only_none auth_request_to_internal
  create_auth_request auth_req user_id =
      if only_none auth_req.prompt then raise login_required else (do
        now ← time_now p
        new_id ← new_string p
        let req = record (auth_request_to_internal now auth_req user_id) { id = new_id }
        save_auth_request req
        pure req)

  unfoldable pub auth_request_by_id : String → M AuthRequest
  auth_request_by_id id = load_auth_request id

  unfoldable pub auth_request_by_code : String → M AuthRequest
  auth_request_by_code code = do
    id ← or_error code_invalid (query p (λ d. Table.get code d.auth_codes))
    load_auth_request id

  unfoldable pub save_auth_code : String → String → M Unit
  save_auth_code id code = exec p (λ d. set_codes d (Table.insert code id d.auth_codes))

  unfoldable pub delete_auth_request : String → M Unit
  delete_auth_request id = do
    exec p (λ d.
        some (record d { auth_codes = Table.delete_where (λ request. request == id) d.auth_codes }))
    exec p (λ d. some (record d { auth_requests = Table.delete id d.auth_requests }))

  unfoldable pub set_auth_request_user : String → String → M Unit
  set_auth_request_user id user_id = do
    req ← load_auth_request id
    save_auth_request (record req { user_id = user_id })

  unfoldable pub complete_auth_request : String → String → M Unit
  unfolding stamp_user
  complete_auth_request id user_id = do
    req ← load_auth_request id
    now ← time_now p
    u ← attempt (get_user p user_id)
    save_auth_request
        (stamp_user u (record req { done = true; auth_time = now; user_id = user_id }))
