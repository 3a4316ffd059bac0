-- ===== src/Db.antt =====
-- The database (migrations/*.sql) and the actions on it (internal/storage/db.go).
-- A row keeps its columns as they are stored, JSON and times as text; the primary key is the table's.
-- An action is a Go function that returns `(A, error)`: it gives its result and the world after it,
-- also on an error. The driver serves one statement at a time (`SetMaxOpenConns(1)`).
pub mod Statements
pub mod Keeps
pub mod Migrate
use oidc_test_idp.Prelude.{
  ℕ, suc, String, Bool, true, false, Option, none, some, List, ◌==◌, ltb, if◌then◌else◌, ℤ, pos,
}
use oidc_test_idp.Table.{Table}
use oidc_test_idp.Json.{Object}
use oidc_test_idp.Platform.{Platform}

pub record ClientRow : Type 0 where
  pub secret : String
  pub redirect_uris : String
  pub post_logout_redirect_uris : String
  pub application_type : ℤ
  pub auth_method : String
  pub response_types : String
  pub grant_types : String
  pub access_token_type : ℤ
  pub dev_mode : ℤ
  pub id_token_userinfo_claims_assertion : ℤ
  pub clock_skew_seconds : ℤ
  pub access_token_lifetime_seconds : ℤ
  pub id_token_lifetime_seconds : ℤ
  pub refresh_token_lifetime_seconds : ℤ
  pub redirect_uri_globs : String
  pub post_logout_redirect_uri_globs : String
  pub require_consent : ℤ
  pub custom_claims : String
  pub force_error : String
  pub latency_ms : ℤ
  pub jwks : String
  pub id_token_sign_alg : String

pub record UserRow : Type 0 where
  pub subject : String
  pub username : String
  pub email : String
  pub email_verified : ℤ
  pub phone : String
  pub phone_verified : ℤ
  pub first_name : String
  pub last_name : String
  pub preferred_language : String
  pub is_admin : ℤ
  pub claims : String
  pub conditional_claims : String
  pub acr : String
  pub amr : String

pub record AuthRequestRow : Type 0 where
  pub data_text : String
  pub done : ℤ
  pub user_id : String
  pub auth_time : String

pub record TokenColumns : Type 0 where
  pub application_id : String
  pub subject : String
  pub refresh_token_id : String
  pub audience : String
  pub scopes : String
  pub expiration : String

pub record RefreshTokenColumns : Type 0 where
  pub token : String
  pub auth_time : String
  pub amr : String
  pub audience : String
  pub user_id : String
  pub application_id : String
  pub expiration : String
  pub scopes : String
  pub access_token : String

pub record DeviceCodeRow : Type 0 where
  pub user_code : String
  pub client_id : String
  pub scopes : String
  pub expires : String
  pub subject : String
  pub done : ℤ
  pub denied : ℤ

pub record SigningKeyRow : Type 0 where
  pub algorithm : String
  pub private_pem : String
  pub active : ℤ
  pub created_at : String

pub record Db : Type 0 where
  pub clients : Table ClientRow
  pub users : Table UserRow
  pub signing_keys : Table SigningKeyRow
  pub settings : Table String
  pub auth_requests : Table AuthRequestRow
  -- The code, and its `auth_request_id`.
  pub auth_codes : Table String
  pub tokens : Table TokenColumns
  pub refresh_tokens : Table RefreshTokenColumns
  pub device_codes : Table DeviceCodeRow

-- The database, and how many statements, ids and times have been asked for.
pub record World : Type 0 where
  pub db : Db
  pub open db use *
  pub statements : ℕ
  pub ids : ℕ
  pub times : ℕ

-- `driver`, `no_rows` and `constraint` come from the driver (`sql.ErrNoRows`, a violated
-- constraint), `marshal` and `unmarshal` from encoding/json; the rest are the code's own errors.
pub data Error : Type 0 where
  driver no_rows constraint marshal unmarshal : Error
  not_found request_not_found code_invalid login_required : Error
  invalid_refresh_token expired_refresh_token : Error
  client_not_found invalid_secret wrong_service_user wrong_client : Error
  token_invalid token_expired token_not_for_client : Error
  device_code_not_found user_code_not_found duplicate_user_code : Error
  cancelled unsupported_algorithm generation seed_unread seed_invalid : Error
  no_jwks jwks_invalid jwks_key_not_found entropy : Error

pub data Result {ℓ} (A : Type ℓ) : Type ℓ where
  ok : A → Result A
  err : Error → Result A

abbrev pub M : Type 0 → Type 0
M A = World → Result A × World

abbrev pub continue : {A B : Type 0} → Result A → (A → M B) → M B
continue (ok a) f w = f a w
continue (err e) f w = (err e, w)

infixl 5 ◌>>=◌ ◌>>◌
abbrev pub ◌>>=◌ : {A B : Type 0} → M A → (A → M B) → M B
◌>>=◌ m f w = continue (m w).0 f (m w).1

abbrev pub ◌>>◌ : {B : Type 0} → M Unit → M B → M B
m >> n = m >>= λ _. n

abbrev pub pure : {A : Type 0} → A → M A
pure a w = (ok a, w)

abbrev pub raise : {A : Type 0} → Error → M A
raise e w = (err e, w)

-- A call whose error the code inspects: `if err != nil { … }`.
abbrev pub attempt : {A : Type 0} → M A → M (Result A)
attempt m w = (ok (m w).0, (m w).1)

-- `if err != nil { return …, e }`
abbrev pub or_raise : {A : Type 0} → Error → Result A → M A
or_raise e (ok a) = pure a
or_raise e (err _) = raise e

abbrev pub or_error : {A : Type 0} → Error → M A → M A
or_error e m = attempt m >>= or_raise e

module _ (p : Platform) where
  -- `QueryRow(…).Scan(…)`: the first row that the statement selects.
  unfoldable pub query : {A : Type 0} → (Db → Option A) → M A
  query select w =
      let w' = record w { statements = suc w.statements } in
      if p.fault w.statements
      then (err driver, w')
      else elim (select w.db) [ none ↦ (err no_rows, w') | some a ↦ (ok a, w') ]

  -- `Exec(…)`: `none` where a constraint refuses the change.
  unfoldable pub exec : (Db → Option Db) → M Unit
  exec change w =
      let w' = record w { statements = suc w.statements } in
      if p.fault w.statements then (err driver, w') else elim (change w.db) [
        | none ↦ (err constraint, w')
        | some d ↦ (ok tt, record w' { db = d })
      ]

  -- `uuid.NewString()`
  unfoldable pub new_string : M String
  new_string w = (ok (p.uuid w.ids), record w { ids = suc w.ids })

  -- `time.Now()`
  unfoldable pub time_now : M ℕ
  time_now w = (ok (p.clock w.times), record w { times = suc w.times })

  unfoldable pub time_str : ℕ → String
  time_str t = if ltb 0 t then p.format_time t else ""

  unfoldable pub parse_time : String → ℕ
  parse_time s = if s == "" then 0 else elim (p.parse_rfc3339 s) [ none ↦ 0 | some t ↦ t ]

  unfoldable pub json_strings : String → List String
  json_strings s = (p.unmarshal_strings s).0

  unfoldable pub json_object : String → Object
  json_object s = (p.unmarshal_object s).0

-- `jsonMarshal`, of what `json.Marshal` returns.
unfoldable pub json_marshal : Option String → String
json_marshal none = "null"
json_marshal (some s) = s

abbrev pub bool_int : Bool → ℤ
bool_int true = pos 1
bool_int false = pos 0
