-- ===== src/Provider.antt =====
-- internal/oidc/provider.go: the settings of the provider and the key that encrypts its tokens.
pub mod Stable
use oidc_test_idp.Prelude.{
  ℕ, ◌*◌, String, ◌==◌, Bool, true, Option, none, some, List, [], ◌∷◌, if◌then◌else◌, length,
}
use oidc_test_idp.Prelude.Text.{same}
use oidc_test_idp.Models.{second}
use oidc_test_idp.Platform.{Platform}
use oidc_test_idp.Db.{M, ◌>>=◌, ◌>>◌, pure, raise, entropy}
use oidc_test_idp.Repo.Settings.{get_setting, set_setting}

-- The bytes of a key.
abbrev pub Bytes : Type 0
Bytes = List ℕ

-- `op.Config`, the fields that the code sets but for the library's constant `UserCodeBase20`, and
-- whether the option `WithAllowInsecure` is given.
pub record ProviderConfig : Type 0 where
  pub crypto_key : Bytes
  pub crypto_key_id : String
  pub default_logout_redirect_uri : String
  pub code_method_s256 : Bool
  pub auth_method_post : Bool
  pub auth_method_private_key_jwt : Bool
  pub grant_type_refresh_token : Bool
  pub request_object_supported : Bool
  pub supported_ui_locales : List String
  pub device_lifetime : ℕ
  pub device_poll_interval : ℕ
  pub device_user_form_path : String
  pub allow_insecure : Bool

-- encoding/base64 and crypto/sha256.
pub record KeyCoding : Type 0 where
  pub decode : String → Option Bytes
  pub encode : Bytes → String
  pub sum256 : Bytes → Bytes

module _ (p : Platform) (coding : KeyCoding) where
  -- The stored key, where it decodes to 32 bytes.
  unfoldable pub usable_key : String → Option Bytes
  usable_key b64 = if b64 == "" then none else elim (coding.decode b64) [
    | none ↦ none
    | some raw ↦ if same (length raw) 32 then some raw else none
  ]

  -- `random` is what `rand.Read` fills a new key with, none where it fails.
  abbrev pub new_key : Option Bytes → M (Bytes × String)
  new_key none = raise entropy
  new_key (some raw) = do
    set_setting p "crypto_key" (coding.encode raw)
    pure (coding.sum256 raw, "key1")

  abbrev pub key_or_new : Option Bytes → Option Bytes → M (Bytes × String)
  key_or_new random none = new_key random
  key_or_new random (some raw) = pure (coding.sum256 raw, "key1")

  unfoldable pub crypto_key : Option Bytes → M (Bytes × String)
  unfolding usable_key
  crypto_key random = do b64 ← get_setting p "crypto_key" ""; key_or_new random (usable_key b64)

  -- The configuration with which `NewProvider` calls the library.
  unfoldable pub new_provider : Option Bytes → Bool → M ProviderConfig
  new_provider random allow_insecure = do
    key ← crypto_key random
    pure (record {
      crypto_key = key.0;
      crypto_key_id = key.1;
      default_logout_redirect_uri = "/logged-out";
      code_method_s256 = true;
      auth_method_post = true;
      auth_method_private_key_jwt = true;
      grant_type_refresh_token = true;
      request_object_supported = true;
      supported_ui_locales = "en" ∷ [];
      device_lifetime = 300 * second;
      device_poll_interval = 5 * second;
      device_user_form_path = "/device";
      allow_insecure = allow_insecure;
    })
