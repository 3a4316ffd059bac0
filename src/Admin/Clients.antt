-- ===== src/Admin/Clients.antt =====
-- The admin handlers that save and delete clients.
pub mod Described
pub mod Renamed
use oidc_test_idp.Prelude.{
  String, ◌==◌, Bool, true, false, not, ◌&&◌, Option, none, some, List, [], if◌then◌else◌, ℤ, pos,
}
use oidc_test_idp.Prelude.Split.{trim_space}
use oidc_test_idp.Json.{Object}
use oidc_test_idp.Platform.{Platform}
use oidc_test_idp.Http.{HttpRequest}
use oidc_test_idp.Models.{Client, seconds}
use oidc_test_idp.Db.{Result, ok, err, M, ◌>>=◌, ◌>>◌, pure, attempt}
use oidc_test_idp.Repo.Clients
use oidc_test_idp.Storage.Keys.{is_supported_alg}
use oidc_test_idp.Admin.{
  Answer, failed, redirected, invalid_custom_claims, client_id_required, invalid_jwks,
  unsupported_signing_alg, failed_with,
}
use oidc_test_idp.Admin.Forms.{
  or_default, split_lines, parse_response_types, parse_grant_types, atoi,
}
use oidc_test_idp.Admin.Pages.{Library, clients_error}
use oidc_test_idp.Admin.Users.{claims_of}

unfoldable pub client_of_form : HttpRequest → Object → Client
unfolding or_default split_lines parse_response_types parse_grant_types atoi trim_space seconds
client_of_form r custom_claims = record {
  id = r.form "id";
  secret = r.form "secret";
  redirect_uri_list = split_lines (r.form "redirect_uris");
  post_logout_redirect_uri_list = split_lines (r.form "post_logout");
  app_type = pos 0;
  auth_method_value = or_default (r.form "auth_method") "none";
  response_type_list = parse_response_types (r.form "response_types");
  grant_type_list = parse_grant_types (r.form "grant_types");
  access_token_type_value = atoi (r.form "access_token_type") (pos 0);
  dev_mode_flag = not (r.form "dev_mode" == "");
  id_token_userinfo_claims_assert = false;
  clock_skew_duration = pos 0;
  access_token_lifetime = seconds (atoi (r.form "at_ttl") (pos 300));
  id_token_lifetime_duration = seconds (atoi (r.form "id_ttl") (pos 3600));
  refresh_token_lifetime = seconds (atoi (r.form "rt_ttl") (pos 18000));
  redirect_uri_glob_list = split_lines (r.form "redirect_uris");
  post_logout_redirect_glob_list = [];
  require_consent = not (r.form "require_consent" == "");
  custom_claims = custom_claims;
  force_error = trim_space (r.form "force_error");
  latency_ms = atoi (r.form "latency_ms") (pos 0);
  jwks = trim_space (r.form "jwks");
  id_token_sign_alg = trim_space (r.form "id_token_sign_alg");
}

module _ (p : Platform) (library : Library) where
  -- Whether the code refuses the algorithm.
  unfoldable pub is_unsupported : Client → Bool
  unfolding is_supported_alg
  is_unsupported c = not (c.id_token_sign_alg == "") && not (is_supported_alg c.id_token_sign_alg)

  unfoldable pub is_bad_jwks : Client → Bool
  is_bad_jwks c = not (c.jwks == "") && not (c.jwks == "{}") && not (p.unmarshal_object c.jwks).1

  abbrev pub client_saved : Result (Unit {0}) → M Answer
  client_saved (ok _) = pure (redirected "/admin/clients")
  client_saved (err e) = clients_error p library (failed_with e)

  unfoldable pub store_client : Client → M Answer
  unfolding is_unsupported is_bad_jwks clients_error
  store_client c =
      if is_unsupported c
      then clients_error p library (unsupported_signing_alg c.id_token_sign_alg)
      else if is_bad_jwks c
      then clients_error p library invalid_jwks
      else (do saved ← attempt (Clients.save_client p c); client_saved saved)

  -- A changed id removes the old record; the error is dropped.
  unfoldable pub remove_renamed : HttpRequest → M Unit
  remove_renamed r =
      if not (r.form "orig_id" == "") && not (r.form "orig_id" == r.form "id")
      then (do _ ← attempt (Clients.delete_client p (r.form "orig_id")); pure tt)
      else pure tt

  abbrev pub with_claims : HttpRequest → Option Object → M Answer
  with_claims r none = clients_error p library invalid_custom_claims
  with_claims r (some claims) =
      if r.form "id" == ""
      then clients_error p library client_id_required
      else (do remove_renamed r; store_client (client_of_form r claims))

  unfoldable pub save_client : HttpRequest → M Answer
  unfolding claims_of client_of_form store_client remove_renamed
  save_client r =
      if r.parses
      then with_claims r (claims_of p library (r.form "custom_claims"))
      else pure (failed 400)

  unfoldable pub delete_client : String → M Answer
  delete_client id = do _ ← attempt (Clients.delete_client p id); pure (redirected "/admin/clients")
