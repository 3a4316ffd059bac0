-- ===== src/Seed/Default.antt =====
-- `defaultSeed`: the built-in users and clients.
use oidc_test_idp.Prelude.{String, true, false, none, some, List, [], ◌∷◌, pos}
use oidc_test_idp.Json.{text, arr, nil, cons}
use oidc_test_idp.Seed.{UserSeed, ClientSeed, File}

abbrev alice : UserSeed
alice = record {
  id = "user-alice";
  subject = "";
  username = "alice";
  email = "alice@example.com";
  email_verified = some true;
  phone = "";
  first_name = "Alice";
  last_name = "Anderson";
  preferred_language = "";
  claims =
      ("role", text "admin")
      ∷ ("groups", arr (cons (text "admins") (cons (text "users") nil)))
      ∷ [];
  conditional_claims =
      record { client_id = "web-app"; scopes = []; claims = ("tenant", text "acme") ∷ [] }
      ∷ record {
        client_id = "";
        scopes = "profile" ∷ [];
        claims = ("department", text "engineering") ∷ [];
      }
      ∷ [];
  acr = "urn:mace:incommon:iap:silver";
  amr = "pwd" ∷ "mfa" ∷ [];
}

abbrev bob : UserSeed
bob = record {
  id = "user-bob";
  subject = "";
  username = "bob";
  email = "bob@example.com";
  email_verified = some true;
  phone = "";
  first_name = "Bob";
  last_name = "Brown";
  preferred_language = "";
  claims = ("role", text "user") ∷ ("groups", arr (cons (text "users") nil)) ∷ [];
  conditional_claims = [];
  acr = "";
  amr = [];
}

-- A client with the fields that the built-in clients set.
abbrev client_seed :
    String → String → List String → String → List String → List String → String → ClientSeed
client_seed id secret redirect_uris auth_method response_types grant_types access_token_type =
    record {
      id = id;
      secret = secret;
      redirect_uris = redirect_uris;
      post_logout = [];
      auth_method = auth_method;
      response_types = response_types;
      grant_types = grant_types;
      access_token_type = access_token_type;
      dev_mode = none;
      require_consent = false;
      custom_claims = [];
      access_token_ttl_sec = pos 0;
      jwks = "";
      id_token_sign_alg = "";
    }

unfoldable pub default_seed : File
default_seed = record {
  users = alice ∷ bob ∷ [];
  clients =
      client_seed "web-app" "web-secret"
        ("http://localhost:8080/callback" ∷ "http://localhost:8080/auth/callback"
          ∷ "http://localhost:8088/callback" ∷ "http://localhost:8088/auth/callback" ∷ [])
        "client_secret_basic" ("code" ∷ []) ("authorization_code" ∷ "refresh_token" ∷ []) "jwt"
      ∷ client_seed "spa-app" "" ("http://localhost:3000/callback" ∷ []) "none" ("code" ∷ [])
          ("authorization_code" ∷ "refresh_token" ∷ []) "jwt"
      ∷ client_seed "service-app" "service-secret" [] "client_secret_basic" []
          ("client_credentials" ∷ []) "jwt"
      ∷ client_seed "device-app" "device-secret" [] "client_secret_basic" []
          ("urn:ietf:params:oauth:grant-type:device_code" ∷ []) ""
      ∷ client_seed "ropc-app" "ropc-secret" [] "client_secret_basic" []
          ("password" ∷ "refresh_token" ∷ []) "jwt"
      ∷ [];
}
