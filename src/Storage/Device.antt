-- ===== src/Storage/Device.antt =====
-- Device authorization of internal/storage/storage.go.
pub mod Flow
use oidc_test_idp.Prelude.{
  ℕ, String, ◌==◌, Bool, true, false, Option, none, some, List, if◌then◌else◌, is_nonzero, pos,
}
use oidc_test_idp.Table
use oidc_test_idp.Platform.{Platform}
use oidc_test_idp.Db.{
  DeviceCodeRow, Db, Result, ok, err, client_not_found, device_code_not_found, user_code_not_found,
  duplicate_user_code, cancelled, M, ◌>>=◌, pure, raise, attempt, or_error, query, exec, time_str,
  parse_time, json_strings,
}
use oidc_test_idp.Repo.Clients.{get_client}

-- The library's `op.DeviceAuthorizationState`, as far as the code fills it.
pub record DeviceAuthorizationState : Type 0 where
  pub client_id : String
  pub scopes : List String
  pub expires : ℕ
  pub subject : String
  pub done : Bool
  pub denied : Bool

abbrev pub has_user_code : String → DeviceCodeRow → Bool
has_user_code user_code r = r.user_code == user_code

abbrev pub set_device_codes : Db → Option (Table.Table DeviceCodeRow) → Option Db
set_device_codes d none = none
set_device_codes d (some codes) = some (record d { device_codes = codes })

-- The unique index on `user_code` (migrations/0001_init.sql), then the primary key.
unfoldable pub insert_device : String → DeviceCodeRow → Db → Option Db
insert_device device_code row d = elim (Table.find (has_user_code row.user_code) d.device_codes) [
  | none ↦ set_device_codes d (Table.insert device_code row d.device_codes)
  | some _ ↦ none
]

-- `_ = …Scan(&exists)` and `exists > 0`: on an error the count stays 0.
abbrev pub counted : Result Bool → Bool
counted (ok found) = found
counted (err _) = false

unfoldable pub user_code_exists : String → Db → Bool
user_code_exists user_code d = elim (Table.find (has_user_code user_code) d.device_codes) [
  | none ↦ false
  | some _ ↦ true
]

module _ (p : Platform) where
  unfoldable pub scan_device : DeviceCodeRow → DeviceAuthorizationState
  unfolding json_strings parse_time
  scan_device row = record {
    client_id = row.client_id;
    scopes = json_strings p row.scopes;
    expires = parse_time p row.expires;
    subject = row.subject;
    done = is_nonzero row.done;
    denied = is_nonzero row.denied;
  }

  -- A pending row as INSERT writes it, with the columns' defaults.
  unfoldable pub pending_row : String → String → ℕ → List String → DeviceCodeRow
  unfolding time_str
  pending_row client_id user_code expires scopes = record {
    user_code = user_code;
    client_id = client_id;
    scopes = p.marshal_strings scopes;
    expires = time_str p expires;
    subject = "";
    done = pos 0;
    denied = pos 0;
  }

  unfoldable pub store_device_authorization : String → String → String → ℕ → List String → M Unit
  unfolding user_code_exists insert_device pending_row
  store_device_authorization client_id device_code user_code expires scopes = do
    _ ← or_error client_not_found (get_client p client_id)
    exists ← attempt (query p (λ d. some (user_code_exists user_code d)))
    if counted exists
        then raise duplicate_user_code
        else exec p (insert_device device_code (pending_row client_id user_code expires scopes))

  -- `cancel` is whether the request's context is done (`ctx.Err()`).
  unfoldable pub get_device_authorizaton_state : Bool → String → String → M DeviceAuthorizationState
  unfolding scan_device
  get_device_authorizaton_state cancel client_id device_code =
      if cancel then raise cancelled else (do
        row ← or_error device_code_not_found (query p (λ d. Table.get device_code d.device_codes))
        if row.client_id == client_id then pure (scan_device row) else raise device_code_not_found)

  unfoldable pub get_device_authorization_by_user_code : String → M DeviceAuthorizationState
  unfolding scan_device
  get_device_authorization_by_user_code user_code = do
    found ←
        or_error user_code_not_found
          (query p (λ d. Table.find (has_user_code user_code) d.device_codes))
    pure (scan_device found.1)

  unfoldable pub complete_device_authorization : String → String → M Unit
  complete_device_authorization user_code subject = exec p (λ d. some (record d {
    device_codes =
        Table.update_where (has_user_code user_code)
          (λ r. record r { subject = subject; done = pos 1 }) d.device_codes;
  }))

  unfoldable pub deny_device_authorization : String → M Unit
  deny_device_authorization user_code = exec p (λ d. some (record d {
    device_codes =
        Table.update_where (has_user_code user_code) (λ r. record r { denied = pos 1 })
          d.device_codes;
  }))
