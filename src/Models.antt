-- ===== src/Models.antt =====
-- The records of internal/storage/models.go and oidc_types.go and their methods.
-- A nil slice and an empty one are both `[]`. A `time.Time` is the number of nanoseconds since its
-- zero value (January 1, year 1, UTC), so 0 is the zero time. A `time.Duration` is an int64.
use oidc_test_idp.Prelude.{
  ℕ, String, Bool, true, false, Option, none, some, List, [], ◌∷◌, ◌==◌, ◌||◌, if◌then◌else◌, ◌*◌,
  ◌%◌, ◌^◌, ◌-◌, suc, ℤ, pos, negsuc, signed64,
}
use oidc_test_idp.Json.{Object}

abbrev pub second : ℕ
second = 1000000000

-- `time.Duration(n) * time.Second`, which wraps.
unfoldable pub seconds : ℤ → ℤ
seconds (pos n) = signed64 ((n * second) % 2 ^ 64)
seconds (negsuc n) = signed64 ((2 ^ 64 - (suc n * second) % 2 ^ 64) % 2 ^ 64)

pub record Client : Type 0 where
  pub id : String
  pub secret : String
  pub redirect_uri_list : List String
  pub post_logout_redirect_uri_list : List String
  pub app_type : ℤ
  pub auth_method_value : String
  pub response_type_list : List String
  pub grant_type_list : List String
  pub access_token_type_value : ℤ
  pub dev_mode_flag : Bool
  pub id_token_userinfo_claims_assert : Bool
  pub clock_skew_duration : ℤ
  pub access_token_lifetime : ℤ
  pub id_token_lifetime_duration : ℤ
  pub refresh_token_lifetime : ℤ
  pub redirect_uri_glob_list : List String
  pub post_logout_redirect_glob_list : List String
  pub require_consent : Bool
  pub custom_claims : Object
  pub force_error : String
  pub latency_ms : ℤ
  pub jwks : String
  pub id_token_sign_alg : String

-- The two values behind `op.Client`: the client itself, or wrapped with its redirect globs.
pub data OpClient : Type 0 where
  plain has_redirect_globs : Client → OpClient

unfoldable pub as_op_client : Client → OpClient
as_op_client c = if c.dev_mode_flag then has_redirect_globs c else plain c

pub record ConditionalClaimRule : Type 0 where
  pub client_id : String
  pub scopes : List String
  pub claims : Object

pub record User : Type 0 where
  pub id : String
  pub subject : String
  pub username : String
  pub email : String
  pub email_verified : Bool
  pub phone : String
  pub phone_verified : Bool
  pub first_name : String
  pub last_name : String
  pub preferred_language : String
  pub is_admin : Bool
  pub claims : Object
  pub conditional_claims : List ConditionalClaimRule
  pub acr : String
  pub amr : List String

-- `u.SubjectOrID()`
unfoldable pub subject_or_id : User → String
subject_or_id u = if u.subject == "" then u.id else u.subject

pub record OidcCodeChallenge : Type 0 where
  pub challenge : String
  pub method : String

-- `method` of the library's challenge is one of two values.
pub data CodeChallengeMethod : Type 0 where
  method_plain method_s256 : CodeChallengeMethod

unfoldable pub code_challenge_to_oidc :
    Option OidcCodeChallenge → Option (String × CodeChallengeMethod)
code_challenge_to_oidc none = none
code_challenge_to_oidc (some c) =
    some (c.challenge, if c.method == "S256" then method_s256 else method_plain)

pub record AuthRequest : Type 0 where
  pub id : String
  pub creation_date : ℕ
  pub application_id : String
  pub callback_uri : String
  pub transfer_state : String
  pub prompt : List String
  pub ui_locales : List String
  pub login_hint : String
  pub max_auth_age : Option ℤ
  pub user_id : String
  pub scopes : List String
  pub response_type : String
  pub response_mode : String
  pub nonce : String
  pub code_challenge : Option OidcCodeChallenge
  pub acr_value : String
  pub amr_values : List String
  pub done : Bool
  pub auth_time : ℕ

-- `a.GetAMR()`
unfoldable pub get_amr : AuthRequest → List String
get_amr a = elim a.amr_values [ [] ↦ (if a.done then "pwd" ∷ [] else []) | x ∷ xs ↦ x ∷ xs ]

-- The fields of the library's `oidc.AuthRequest` that the code reads; scopes and texts are its
-- own string types, and `max_age` is a uint.
pub record OidcAuthRequest : Type 0 where
  pub scopes : List String
  pub response_type : String
  pub client_id : String
  pub redirect_uri : String
  pub state : String
  pub nonce : String
  pub response_mode : String
  pub prompt : List String
  pub max_age : Option ℕ
  pub ui_locales : List String
  pub login_hint : String
  pub code_challenge : String
  pub code_challenge_method : String

is_prompt : String → Bool
is_prompt v = v == "none" || v == "login" || v == "consent" || v == "select_account"

unfoldable pub prompt_to_internal : List String → List String
unfolding is_prompt
prompt_to_internal [] = []
prompt_to_internal (v ∷ p) =
    let rest = prompt_to_internal p in if is_prompt v then v ∷ rest else rest

-- The conversion `time.Duration(*maxAge)` reads the uint as an int64.
unfoldable pub max_age_to_internal : Option ℕ → Option ℤ
unfolding seconds
max_age_to_internal none = none
max_age_to_internal (some n) = some (seconds (signed64 (n % 2 ^ 64)))

-- `now` is what `time.Now()` returns.
unfoldable pub auth_request_to_internal : ℕ → OidcAuthRequest → String → AuthRequest
unfolding prompt_to_internal max_age_to_internal
auth_request_to_internal now req user_id = record {
  id = "";
  creation_date = now;
  application_id = req.client_id;
  callback_uri = req.redirect_uri;
  transfer_state = req.state;
  prompt = prompt_to_internal req.prompt;
  ui_locales = req.ui_locales;
  login_hint = req.login_hint;
  max_auth_age = max_age_to_internal req.max_age;
  user_id = user_id;
  scopes = req.scopes;
  response_type = req.response_type;
  response_mode = req.response_mode;
  nonce = req.nonce;
  code_challenge =
      if req.code_challenge == ""
      then none
      else some (record { challenge = req.code_challenge; method = req.code_challenge_method });
  acr_value = "";
  amr_values = [];
  done = false;
  auth_time = 0;
}

-- `new_id` and `now` are what `uuid.NewString()` and `time.Now()` return.
unfoldable pub new_authenticated_request : String → ℕ → String → User → List String → AuthRequest
unfolding subject_or_id
new_authenticated_request new_id now client_id user scopes = record {
  id = new_id;
  creation_date = now;
  application_id = client_id;
  callback_uri = "";
  transfer_state = "";
  prompt = [];
  ui_locales = [];
  login_hint = "";
  max_auth_age = none;
  user_id = subject_or_id user;
  scopes = scopes;
  response_type = "code";
  response_mode = "";
  nonce = "";
  code_challenge = none;
  acr_value = user.acr;
  amr_values = user.amr;
  done = true;
  auth_time = now;
}

pub record RefreshToken : Type 0 where
  pub id : String
  pub token : String
  pub auth_time : ℕ
  pub amr : List String
  pub audience : List String
  pub user_id : String
  pub application_id : String
  pub expiration : ℕ
  pub scopes : List String
  pub access_token : String

pub record TokenRow : Type 0 where
  pub id : String
  pub application_id : String
  pub subject : String
  pub refresh_token_id : String
  pub audience : List String
  pub scopes : List String
  pub expiration : ℕ
