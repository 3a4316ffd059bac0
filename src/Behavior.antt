-- ===== src/Behavior.antt =====
-- internal/behavior/behavior.go: simulated latency and forced OAuth errors.
pub mod Forced
use oidc_test_idp.Prelude.{
  String, ◌==◌, Bool, ◌||◌, Option, none, some, List, [], ◌∷◌, if◌then◌else◌, ℤ, pos, is_positive,
}
use oidc_test_idp.Prelude.Text.{has_suffix}
use oidc_test_idp.Table
use oidc_test_idp.Table.{Table}
use oidc_test_idp.Http.{HttpRequest}
use oidc_test_idp.Models.{Client}
use oidc_test_idp.Platform.{Platform}
use oidc_test_idp.Db.{Result, ok, err, M, ◌>>=◌, pure, attempt}
use oidc_test_idp.Repo.Clients.{get_client}

unfoldable pub is_authorize_endpoint : String → Bool
is_authorize_endpoint path = path == "/authorize" || path == "/auth" || has_suffix path "/authorize"

unfoldable pub is_token_endpoint : String → Bool
is_token_endpoint path = path == "/oauth/token" || path == "/token" || has_suffix path "/token"

unfoldable pub is_protocol_endpoint : String → Bool
is_protocol_endpoint path = is_authorize_endpoint path || is_token_endpoint path

-- What `clientIDFromRequest` tries once the query has no client id: basic authentication, then
-- the form.
abbrev form_client_id : HttpRequest → String
form_client_id r = if r.parses then r.form "client_id" else ""

abbrev basic_or_form : HttpRequest → Option (String × String) → String
basic_or_form r none = form_client_id r
basic_or_form r (some auth) = if auth.0 == "" then form_client_id r else auth.0

unfoldable pub client_id_from_request : HttpRequest → String
client_id_from_request r =
    if r.query "client_id" == "" then basic_or_form r r.basic_auth else r.query "client_id"

-- A parsed URL (`url.URL`): all but its query, and the query's values.
pub record Url : Type 0 where
  pub rest : String
  pub values : Table (List String)

-- What the middleware does with a request: hand it on, redirect, or answer with a JSON error.
pub data Action : Type 0 where
  next : Action
  redirect : Url → Action
  oauth_error : String → Action

abbrev pub description : String
description = "forced by mock IdP client behavior configuration"

-- `q.Set("state", state)` where the request has a state.
abbrev set_state : String → Table (List String) → Table (List String)
set_state state q = if state == "" then q else Table.put "state" (state ∷ []) q

abbrev redirect_parsed : String → String → Option Url → Action
redirect_parsed state code none = oauth_error code
redirect_parsed state code (some u) = redirect (record u {
  values =
      set_state state
        (Table.put "error_description" (description ∷ []) (Table.put "error" (code ∷ []) u.values));
})

-- `url.Parse` is a parameter: the URL of a text, or none where it refuses.
module _ (parse_url : String → Option Url) where
  unfoldable pub redirect_authorize_error : HttpRequest → String → Action
  redirect_authorize_error r code =
      if r.query "redirect_uri" == ""
      then oauth_error code
      else redirect_parsed (r.query "state") code (parse_url (r.query "redirect_uri"))

  -- The answer for a client that was found; the latency in milliseconds comes beside it.
  unfoldable pub behave : HttpRequest → Client → ℤ × Action
  unfolding redirect_authorize_error is_authorize_endpoint
  behave r client = (
    (if is_positive client.latency_ms then client.latency_ms else pos 0),
    (if client.force_error == ""
        then next
        else if is_authorize_endpoint r.path
        then redirect_authorize_error r client.force_error
        else oauth_error client.force_error),
  )

  abbrev behave_found : HttpRequest → Result Client → ℤ × Action
  behave_found r (err _) = (pos 0, next)
  behave_found r (ok client) = behave r client

  -- `Middleware`, as far as the wrapped handler.
  unfoldable pub middleware : Platform → HttpRequest → M (ℤ × Action)
  unfolding behave is_protocol_endpoint client_id_from_request
  middleware p r =
      if is_protocol_endpoint r.path
      then (if client_id_from_request r == ""
          then pure (pos 0, next)
          else (do c ← attempt (get_client p (client_id_from_request r)); pure (behave_found r c)))
      else pure (pos 0, next)
