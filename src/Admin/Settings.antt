-- ===== src/Admin/Settings.antt =====
-- The admin handlers of the settings and the signing keys.
pub mod Applied
use oidc_test_idp.Prelude.{String, ◌==◌, Bool, ℕ, Option, none, some, if◌then◌else◌}
use oidc_test_idp.Prelude.Split.{trim_space}
use oidc_test_idp.Platform.{Platform}
use oidc_test_idp.Http.{HttpRequest}
use oidc_test_idp.Db.{Result, ok, err, M, ◌>>=◌, pure, attempt}
use oidc_test_idp.Repo.Settings.{get_setting, set_setting}
use oidc_test_idp.Discovery.{discovery_override_setting}
use oidc_test_idp.Storage.Keys.{
  KeyLibrary, Made, SigningKey, Keys, is_supported_alg, signing_key, rotate_signing_key,
}
use oidc_test_idp.Storage.Keys.Start.{list_keys}
use oidc_test_idp.Admin.{
  Answer, failed, redirected, settings_page, keys_page, Notice, no_notice, invalid_override,
  unsupported_alg, rotation_failed, failed_with,
}
use oidc_test_idp.Admin.Pages.{or_nil}

module _ (p : Platform) where
  unfoldable pub render_settings : ℕ → Notice → M Answer
  render_settings status notice = do
    override ← get_setting p discovery_override_setting "{}"
    pure (settings_page status override notice)

  unfoldable pub settings : M Answer
  unfolding render_settings
  settings = render_settings 200 no_notice

  -- The override that is stored: an empty text is "{}".
  unfoldable pub override_of : String → String
  unfolding trim_space
  override_of text = if trim_space text == "" then "{}" else trim_space text

  abbrev pub settings_saved : Result (Unit {0}) → M Answer
  settings_saved (ok _) = pure (redirected "/admin/settings")
  settings_saved (err e) = render_settings 500 (failed_with e)

  unfoldable pub store_override : String → M Answer
  unfolding render_settings
  store_override raw =
      if (p.unmarshal_object raw).1
      then (do saved ← attempt (set_setting p discovery_override_setting raw); settings_saved saved)
      else render_settings 400 invalid_override

  unfoldable pub save_settings : HttpRequest → M Answer
  unfolding override_of store_override
  save_settings r =
      if r.parses
      then store_override (override_of (r.form "discovery_override"))
      else pure (failed 400)

module _ (p : Platform) {Signer : Type 0} (library : KeyLibrary Signer)
    (reformat : String → Option String) where
  abbrev id_shown : Result (SigningKey Signer × Keys Signer) → String
  id_shown (ok (k, _)) = k.id
  id_shown (err _) = ""

  abbrev unmade : Made Signer
  unmade = record { ecdsa = none; rsa = none }

  -- `SigningKey` of a context without an algorithm gives the current key, and no key is made.
  unfoldable pub render_keys : Keys Signer → ℕ → Notice → M Answer
  render_keys keys status notice = do
    listed ← attempt (list_keys p library reformat)
    current ← attempt (signing_key p library keys unmade "")
    pure (keys_page status (or_nil listed) (id_shown current) notice)

  unfoldable pub keys : Keys Signer → M Answer
  unfolding render_keys
  keys cache = render_keys cache 200 no_notice

  unfoldable pub alg_of_form : String → String
  alg_of_form alg = if alg == "" then "RS256" else alg

  abbrev rotated : Keys Signer → Result (String × Keys Signer) → M (Answer × Keys Signer)
  rotated cache (ok (_, after)) = pure (redirected "/admin/keys", after)
  rotated cache (err e) = do page ← render_keys cache 500 (rotation_failed e); pure (page, cache)

  -- The answer, and the keys in memory after it.
  unfoldable pub rotate_key : Keys Signer → Made Signer → HttpRequest → M (Answer × Keys Signer)
  unfolding alg_of_form is_supported_alg render_keys
  rotate_key cache made r =
      if is_supported_alg (alg_of_form (r.form "alg"))
      then (do
        after ← attempt (rotate_signing_key p library cache made (alg_of_form (r.form "alg")))
        rotated cache after)
      else (do
        page ← render_keys cache 400 (unsupported_alg (alg_of_form (r.form "alg")))
        pure (page, cache))
