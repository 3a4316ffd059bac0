-- ===== src/Config.antt =====
-- internal/config/config.go: the configuration from environment variables.
pub mod Issuer
use oidc_test_idp.Prelude.{String, ◌==◌, Bool, true, false, ◌||◌, Option, none, some, if◌then◌else◌}
use oidc_test_idp.Prelude.Text.{trim_slashes}

pub record Config : Type 0 where
  pub issuer : String
  pub addr : String
  pub db_path : String
  pub seed_path : String
  pub allow_insecure : Bool

-- `os.LookupEnv`
abbrev pub Environment : Type 0
Environment = String → Option String

unfoldable pub env : Environment → String → String → String
env lookup key def = elim (lookup key) [ none ↦ def | some v ↦ v ]

-- `strconv.ParseBool`
unfoldable pub parse_bool : String → Option Bool
parse_bool s =
    if s == "1" || s == "t" || s == "T" || s == "true" || s == "TRUE" || s == "True"
    then some true
    else if s == "0" || s == "f" || s == "F" || s == "false" || s == "FALSE" || s == "False"
    then some false
    else none

abbrev bool_or : Bool → Option Bool → Bool
bool_or def none = def
bool_or def (some b) = b

unfoldable pub env_bool : Environment → String → Bool → Bool
unfolding parse_bool
env_bool lookup key def = elim (lookup key) [ none ↦ def | some v ↦ bool_or def (parse_bool v) ]

-- `Load`; `none` is its error, an empty IDP_ISSUER.
unfoldable pub load : Environment → Option Config
unfolding env env_bool
load lookup =
    let issuer = env lookup "IDP_ISSUER" "http://localhost:9000" in
    if issuer == ""
    then none
    else some (record {
      issuer = trim_slashes issuer;
      addr = env lookup "IDP_ADDR" ":9000";
      db_path = env lookup "IDP_DB_PATH" "/data/idp.db";
      seed_path = env lookup "IDP_SEED_PATH" "";
      allow_insecure = env_bool lookup "IDP_ALLOW_INSECURE" true;
    })
