-- ===== src/Ropc.antt =====
-- internal/oidc/ropc.go: the Resource Owner Password Credentials grant.
pub mod Exchange
use oidc_test_idp.Prelude.{
  ℕ, String, ◌==◌, Bool, not, ◌&&◌, Option, none, some, List, [], ◌∷◌, any, if◌then◌else◌,
}
use oidc_test_idp.Prelude.Text.{fields}
use oidc_test_idp.Http.{HttpRequest}
use oidc_test_idp.Models.{Client, OpClient, User, AuthRequest, new_authenticated_request}
use oidc_test_idp.Platform.{Platform}
use oidc_test_idp.Db.{Result, ok, err, M, ◌>>=◌, pure, attempt, new_string, time_now}
use oidc_test_idp.Repo.Clients.{get_client, get_client_by_client_id}
use oidc_test_idp.Repo.Users.{get_user_by_username}
use oidc_test_idp.Behavior.{is_token_endpoint}

-- The answer: a JSON error (its description is left out), or the token response.
pub data TokenAnswer (Body : Type 0) : Type 0 where
  token_error : ℕ → String → TokenAnswer Body
  tokens : Body → TokenAnswer Body

abbrev basic_or_form : HttpRequest → Option (String × String) → String × String
basic_or_form r none = (r.post_form "client_id", r.post_form "client_secret")
basic_or_form r (some auth) =
    if auth.0 == "" then (r.post_form "client_id", r.post_form "client_secret") else auth

unfoldable pub client_credentials_of : HttpRequest → String × String
client_credentials_of r = basic_or_form r r.basic_auth

unfoldable pub has_grant_type : Client → String → Bool
has_grant_type c gt = any (λ g. g == gt) c.grant_type_list

-- Whether `ROPCMiddleware` takes the request; otherwise the wrapped handler does.
unfoldable pub intercepts : HttpRequest → Bool
intercepts r =
    is_token_endpoint r.path
    && r.method == "POST"
    && r.parses
    && r.post_form "grant_type" == "password"

-- `op.CreateTokenResponse` is a parameter: it runs on the storage, and may fail.
module _ (p : Platform) {Body : Type 0}
    (create_token_response : AuthRequest → OpClient → M Body) where
  abbrev answer : Result Body → M (TokenAnswer Body)
  answer (ok body) = pure (tokens body)
  answer (err _) = pure (token_error 400 "invalid_grant")

  -- From `storage.NewAuthenticatedRequest` on; it draws the id and then reads the clock.
  unfoldable pub respond : String → User → List String → OpClient → M (TokenAnswer Body)
  respond client_id user scopes op_client = do
    id ← new_string p
    now ← time_now p
    r ←
        attempt
          (create_token_response (new_authenticated_request id now client_id user scopes) op_client)
    answer r

  abbrev with_client : String → User → List String → Result OpClient → M (TokenAnswer Body)
  with_client client_id user scopes (err _) = pure (token_error 401 "invalid_client")
  with_client client_id user scopes (ok c) = respond client_id user scopes c

  -- Once the user is looked up.
  unfoldable pub with_user : HttpRequest → String → Result User → M (TokenAnswer Body)
  unfolding fields
  with_user r client_id (err _) = pure (token_error 400 "invalid_grant")
  with_user r client_id (ok user) = do
    c ← attempt (get_client_by_client_id p client_id)
    with_client client_id user (fields (r.post_form "scope")) c

  abbrev wrong_secret : Client → String → Bool
  wrong_secret c secret = not (c.secret == "") && not (c.secret == secret)

  -- Once the client is looked up.
  unfoldable pub with_found : HttpRequest → String → String → Result Client → M (TokenAnswer Body)
  unfolding has_grant_type
  with_found r client_id secret (err _) = pure (token_error 401 "invalid_client")
  with_found r client_id secret (ok c) =
      if wrong_secret c secret
      then pure (token_error 401 "invalid_client")
      else if not (has_grant_type c "password")
      then pure (token_error 400 "unauthorized_client")
      else if r.post_form "username" == ""
      then pure (token_error 400 "invalid_request")
      else (do
        u ← attempt (get_user_by_username p (r.post_form "username"))
        with_user r client_id u)

  unfoldable pub ropc_exchange : HttpRequest → M (TokenAnswer Body)
  unfolding client_credentials_of
  ropc_exchange r =
      let credentials = client_credentials_of r in
      if credentials.0 == ""
      then pure (token_error 401 "invalid_client")
      else (do c ← attempt (get_client p credentials.0); with_found r credentials.0 credentials.1 c)
