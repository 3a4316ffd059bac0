-- ===== src/Admin/Clients/Described.antt =====
-- What a client form says: its client, and whether its algorithm and key set are accepted.
use oidc_test_idp.Prelude.{
  String, ◌⊎◌, sym, eq_iff, [], pos, ◌≡◌, ◌≢◌, refl, eq-false_of_ne, arith, Bool-cases, inl, inr,
  true, false,
}
use oidc_test_idp.Json.{Object}
use oidc_test_idp.Platform.{Platform}
use oidc_test_idp.Http.{HttpRequest}
use oidc_test_idp.Models.{Client}
use oidc_test_idp.Admin.Pages.{Library}
use oidc_test_idp.Admin.Clients.{client_of_form, is_unsupported, is_bad_jwks}
use oidc_test_idp.Prelude.Split.{trim_space, split}
use oidc_test_idp.Models.{seconds}
use oidc_test_idp.Storage.Keys.{is_supported_alg}
use oidc_test_idp.Admin.Forms.{
  kept, or_default, split_lines, parse_response_types, parse_grant_types, atoi,
}
use oidc_test_idp.Admin.Users.Described.{IsTicked}

-- The algorithm of a form is one that the provider signs with, or none.
abbrev pub IsSigning : String → Type 0
IsSigning alg = (alg ≡ "") ⊎ (alg ≡ "RS256") ⊎ (alg ≡ "ES256")

-- The key set of a form is empty or a JSON object.
abbrev pub IsKeySet : Platform → String → Type 0
IsKeySet p t = (t ≡ "") ⊎ (t ≡ "{}") ⊎ ((p.unmarshal_object t).1 ≡ true)

-- The client that a form describes.
pub record IsClientOf (r : HttpRequest) (claims : Object) (c : Client) : Type 0 where
  pub same_id : c.id ≡ r.form "id"
  pub same_secret : c.secret ≡ r.form "secret"
  pub same_uris : c.redirect_uri_list ≡ kept trim_space (split 10 (r.form "redirect_uris"))
  pub same_globs : c.redirect_uri_glob_list ≡ kept trim_space (split 10 (r.form "redirect_uris"))
  pub same_post_logout :
      c.post_logout_redirect_uri_list ≡ kept trim_space (split 10 (r.form "post_logout"))
  pub no_post_logout_globs : c.post_logout_redirect_glob_list ≡ []
  pub is_web : c.app_type ≡ pos 0
  pub no_method : trim_space (r.form "auth_method") ≡ "" → c.auth_method_value ≡ "none"
  pub same_method :
      trim_space (r.form "auth_method") ≢ "" → c.auth_method_value ≡ r.form "auth_method"
  pub same_response_types : c.response_type_list ≡ parse_response_types (r.form "response_types")
  pub same_grant_types : c.grant_type_list ≡ parse_grant_types (r.form "grant_types")
  pub same_token_type : c.access_token_type_value ≡ atoi (r.form "access_token_type") (pos 0)
  pub same_dev_mode : IsTicked r "dev_mode" c.dev_mode_flag
  pub no_assertion : c.id_token_userinfo_claims_assert ≡ false
  pub no_skew : c.clock_skew_duration ≡ pos 0
  pub same_access : c.access_token_lifetime ≡ seconds (atoi (r.form "at_ttl") (pos 300))
  pub same_id_token : c.id_token_lifetime_duration ≡ seconds (atoi (r.form "id_ttl") (pos 3600))
  pub same_refresh : c.refresh_token_lifetime ≡ seconds (atoi (r.form "rt_ttl") (pos 18000))
  pub same_consent : IsTicked r "require_consent" c.require_consent
  pub same_claims : c.custom_claims ≡ claims
  pub same_error : c.force_error ≡ trim_space (r.form "force_error")
  pub same_latency : c.latency_ms ≡ atoi (r.form "latency_ms") (pos 0)
  pub same_jwks : c.jwks ≡ trim_space (r.form "jwks")
  pub same_alg : c.id_token_sign_alg ≡ trim_space (r.form "id_token_sign_alg")

pub client_of_form-IsClientOf :
    (r : HttpRequest) (claims : Object) → IsClientOf r claims (client_of_form r claims)
unfolding client_of_form or_default split_lines
client_of_form-IsClientOf r claims = record {
  same_id = refl;
  same_secret = refl;
  same_uris = refl;
  same_globs = refl;
  same_post_logout = refl;
  no_post_logout_globs = refl;
  is_web = refl;
  no_method = λ e. rw e refl;
  same_method = λ n. rw (eq-false_of_ne _ _ n) refl;
  same_response_types = refl;
  same_grant_types = refl;
  same_token_type = refl;
  same_dev_mode = (λ e. rw e refl, λ n. rw (eq-false_of_ne _ _ n) refl);
  no_assertion = refl;
  no_skew = refl;
  same_access = refl;
  same_id_token = refl;
  same_refresh = refl;
  same_consent = (λ e. rw e refl, λ n. rw (eq-false_of_ne _ _ n) refl);
  same_claims = refl;
  same_error = refl;
  same_latency = refl;
  same_jwks = refl;
  same_alg = refl;
}

module _ (p : Platform) (library : Library) where
  pub is_unsupported-IsSigning :
      (c : Client) → IsSigning c.id_token_sign_alg → is_unsupported p library c ≡ false
  unfolding is_unsupported is_supported_alg
  is_unsupported-IsSigning c (inl e) = rw e refl
  is_unsupported-IsSigning c (inr (inl e)) = rw e refl
  is_unsupported-IsSigning c (inr (inr e)) = rw e refl

  pub is_unsupported-not-IsSigning :
      (c : Client) → ¬ IsSigning c.id_token_sign_alg → is_unsupported p library c ≡ true
  unfolding is_unsupported is_supported_alg
  is_unsupported-not-IsSigning c h =
      rw
        (
          eq-false_of_ne c.id_token_sign_alg "" (λ e. h (inl e)),
          eq-false_of_ne "RS256" c.id_token_sign_alg (λ e. h (inr (inl (sym e)))),
          eq-false_of_ne "ES256" c.id_token_sign_alg (λ e. h (inr (inr (sym e)))),
        )
        refl

  pub is_bad_jwks-IsKeySet : (c : Client) → IsKeySet p c.jwks → is_bad_jwks p library c ≡ false
  unfolding is_bad_jwks
  is_bad_jwks-IsKeySet c (inl e) = ground (arith, eq_iff c.jwks "")
  is_bad_jwks-IsKeySet c (inr (inl e)) = ground (arith, eq_iff c.jwks "{}")
  is_bad_jwks-IsKeySet c (inr (inr e)) = ground arith

  pub is_bad_jwks-not-IsKeySet : (c : Client) → ¬ IsKeySet p c.jwks → is_bad_jwks p library c ≡ true
  unfolding is_bad_jwks
  is_bad_jwks-not-IsKeySet c h = elim (Bool-cases (p.unmarshal_object c.jwks).1) [
    | inl e ↦ absurd (h (inr (inr e)))
    | inr e ↦ ground (
      arith,
      eq-false_of_ne c.jwks "" (λ f. h (inl f)),
      eq-false_of_ne c.jwks "{}" (λ f. h (inr (inl f))),
    )
  ]
