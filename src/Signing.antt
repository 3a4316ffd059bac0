-- ===== src/Signing.antt =====
-- internal/oidc/signing.go: the signing algorithm of a client's tokens.
pub mod Chosen
use oidc_test_idp.Prelude.{String, ◌==◌, Bool, not, ◌||◌, ◌&&◌, Option, none, some, if◌then◌else◌}
use oidc_test_idp.Http.{HttpRequest}
use oidc_test_idp.Models.{Client}
use oidc_test_idp.Platform.{Platform}
use oidc_test_idp.Db.{Result, ok, err, M, ◌>>=◌, pure, attempt}
use oidc_test_idp.Repo.Clients.{get_client}
use oidc_test_idp.Behavior.{is_token_endpoint, client_id_from_request}
use oidc_test_idp.Storage.Keys.{is_supported_alg}

unfoldable pub is_authorize_or_token : String → Bool
is_authorize_or_token path = path == "/authorize" || path == "/auth" || is_token_endpoint path

-- The query, basic authentication, then the form, as in internal/behavior.
unfoldable pub request_client_id : HttpRequest → String
request_client_id r = client_id_from_request r

-- The algorithm that the context carries for a client: "" where none is set.
abbrev pub alg_of_client : Result Client → String
alg_of_client (err _) = ""
alg_of_client (ok c) = if is_supported_alg c.id_token_sign_alg then c.id_token_sign_alg else ""

module _ (p : Platform) where
  -- The algorithm in the context of the request that is handed on, "" where there is none.
  unfoldable pub signing_alg : HttpRequest → M String
  unfolding is_authorize_or_token request_client_id is_supported_alg
  signing_alg r =
      if is_authorize_or_token r.path
      then (if request_client_id r == ""
          then pure ""
          else (do c ← attempt (get_client p (request_client_id r)); pure (alg_of_client c)))
      else pure ""
