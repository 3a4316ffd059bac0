-- ===== src/Seed.antt =====
-- internal/seed/seed.go: the users and clients of a first boot.
pub mod Default
pub mod Rows
pub mod Once
use oidc_test_idp.Prelude.{
  ℕ, String, ◌==◌, Bool, true, false, ◌||◌, Option, none, some, List, [], ◌∷◌, if◌then◌else◌, ltb,
  ℤ, pos, is_positive,
}
use oidc_test_idp.Json.{Object}
use oidc_test_idp.Models.{Client, User, ConditionalClaimRule, seconds}
use oidc_test_idp.Platform.{Platform}
use oidc_test_idp.Db.{M, ◌>>=◌, ◌>>◌, pure, raise, new_string, seed_unread, seed_invalid}
use oidc_test_idp.Repo.Clients.{save_client}
use oidc_test_idp.Repo.Settings.{count_config}
use oidc_test_idp.Repo.Users.{save_user}

pub record UserSeed : Type 0 where
  pub id : String
  pub subject : String
  pub username : String
  pub email : String
  pub email_verified : Option Bool
  pub phone : String
  pub first_name : String
  pub last_name : String
  pub preferred_language : String
  pub claims : Object
  pub conditional_claims : List ConditionalClaimRule
  pub acr : String
  pub amr : List String

pub record ClientSeed : Type 0 where
  pub id : String
  pub secret : String
  pub redirect_uris : List String
  pub post_logout : List String
  pub auth_method : String
  pub response_types : List String
  pub grant_types : List String
  pub access_token_type : String
  pub dev_mode : Option Bool
  pub require_consent : Bool
  pub custom_claims : Object
  pub access_token_ttl_sec : ℤ
  pub jwks : String
  pub id_token_sign_alg : String

pub record File : Type 0 where
  pub users : List UserSeed
  pub clients : List ClientSeed

unfoldable pub or_default : String → String → String
or_default v def = if v == "" then def else v

abbrev pub or_true : Option Bool → Bool
or_true none = true
or_true (some b) = b

-- `if len(list) > 0`, the list, or else the default.
abbrev pub or_list : List String → List String → List String
or_list [] def = def
or_list (x ∷ xs) def = x ∷ xs

-- The user that is saved, under the id.
unfoldable pub user_from_seed : String → UserSeed → User
unfolding or_default
user_from_seed id u = record {
  id = id;
  subject = u.subject;
  username = u.username;
  email = u.email;
  email_verified = or_true u.email_verified;
  phone = u.phone;
  phone_verified = false;
  first_name = u.first_name;
  last_name = u.last_name;
  preferred_language = or_default u.preferred_language "en";
  is_admin = false;
  claims = u.claims;
  conditional_claims = u.conditional_claims;
  acr = u.acr;
  amr = u.amr;
}

-- The library's values of `op.AccessTokenTypeBearer` and `op.AccessTokenTypeJWT`.
module _ (bearer jwt : ℤ) where
  unfoldable pub client_from_seed : ClientSeed → Client
  client_from_seed c = record {
    id = c.id;
    secret = c.secret;
    redirect_uri_list = c.redirect_uris;
    post_logout_redirect_uri_list = c.post_logout;
    app_type = pos 0;
    auth_method_value =
        if c.auth_method == ""
        then (if c.secret == "" then "none" else "client_secret_basic")
        else c.auth_method;
    response_type_list = or_list c.response_types ("code" ∷ []);
    grant_type_list = or_list c.grant_types ("authorization_code" ∷ "refresh_token" ∷ []);
    access_token_type_value = if c.access_token_type == "jwt" then jwt else bearer;
    dev_mode_flag = or_true c.dev_mode;
    id_token_userinfo_claims_assert = false;
    clock_skew_duration = pos 0;
    access_token_lifetime =
        seconds (if is_positive c.access_token_ttl_sec then c.access_token_ttl_sec else pos 300);
    id_token_lifetime_duration = seconds (pos 3600);
    refresh_token_lifetime = seconds (pos 18000);
    redirect_uri_glob_list = c.redirect_uris;
    post_logout_redirect_glob_list = [];
    require_consent = c.require_consent;
    custom_claims = c.custom_claims;
    force_error = "";
    latency_ms = pos 0;
    jwks = c.jwks;
    id_token_sign_alg = c.id_token_sign_alg;
  }

  module _ (p : Platform) where
    -- `if id == "" { id = uuid.NewString() }`
    unfoldable pub seed_id : String → M String
    seed_id id = if id == "" then new_string p else pure id

    unfoldable pub apply_users : List UserSeed → M Unit
    apply_users [] = pure tt
    apply_users (u ∷ us) = do id ← seed_id u.id; save_user p (user_from_seed id u); apply_users us

    unfoldable pub apply_clients : List ClientSeed → M Unit
    apply_clients [] = pure tt
    apply_clients (c ∷ cs) = do save_client p (client_from_seed c); apply_clients cs

    unfoldable pub apply : File → M Unit
    apply seed = do apply_users seed.users; apply_clients seed.clients

    -- `os.ReadFile` and `yaml.Unmarshal` are parameters: the text of a file and the seed of a text,
    -- or none where they fail.
    module _ (read_file : String → Option String) (decode : String → Option File)
        (default_seed : File) where
      abbrev apply_decoded : Option File → M Unit
      apply_decoded none = raise seed_invalid
      apply_decoded (some seed) = apply seed

      abbrev apply_text : Option String → M Unit
      apply_text none = raise seed_unread
      apply_text (some s) = apply_decoded (decode s)

      unfoldable pub apply_chosen : String → M Unit
      apply_chosen path = if path == "" then apply default_seed else apply_text (read_file path)

      unfoldable pub apply_if_empty : String → M Unit
      apply_if_empty path = do
        counts ← count_config p
        if ltb 0 counts.0 || ltb 0 counts.1 then pure tt else apply_chosen path
