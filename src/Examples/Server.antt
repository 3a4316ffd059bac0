-- ===== src/Examples/Server.antt =====
-- Examples for the chain of middlewares.
use oidc_test_idp.Prelude.{
  List, Option, String, ◌≡◌, ◌≢◌, ◌==◌, refl, none, some, [], ◌∷◌, pos, if◌then◌else◌,
}
use oidc_test_idp.Prelude.Text.{has_suffix}
use oidc_test_idp.Table.{get, put}
use oidc_test_idp.Http.{HttpRequest, status, writes, header_value, header_set}
use oidc_test_idp.Db.{World, ok, pure}
use oidc_test_idp.Repo.Clients.{client_row}
use oidc_test_idp.Behavior.{
  middleware, Action, next, is_protocol_endpoint, is_authorize_endpoint, is_token_endpoint,
  client_id_from_request,
}
use oidc_test_idp.Reqlog.{Log, new}
use oidc_test_idp.Discovery.{discovery_override}
use oidc_test_idp.Ropc.{intercepts}
use oidc_test_idp.Server.{
  form_seen, Sent, sent_status, sent_body, discovery_layer, behavior_layer, signing_layer,
  ropc_layer, Backend, www_authenticate, challenge, protocol, userinfo_challenge, logged,
}
use oidc_test_idp.Server.Challenge.{protocol-challenged}
use oidc_test_idp.Server.Chain.{protocol-forced}
use oidc_test_idp.Signing.{signing_alg, is_authorize_or_token, request_client_id}
use oidc_test_idp.Signing.Chosen.{signing_alg-signing_key}
use oidc_test_idp.Storage.Keys.{Keys, SigningKey, signing_key, is_supported_alg, encode_private_pem}
use oidc_test_idp.Sample.{sample, sample-Healthy}
use oidc_test_idp.Examples.Keys.{
  plain_keys, plain_keys-KeyRoundTrips, keys, keys-IsSorted, made_new, new-IsGenerated,
}
use oidc_test_idp.Storage.Keys.Origin.{Origin}
use oidc_test_idp.Examples.Fixtures.{shop, visit, empty_db, at_start, differ}

-- A backend that writes nothing.
abbrev silent : Backend Unit
silent = record {
  provider = λ alg r. pure [];
  create_token_response = λ alg a c. pure tt;
  parse_url = λ s. none;
  decode = λ s. none;
  write_action = λ r a. status 400 ∷ [];
  write_token_answer = λ a. [];
}

abbrev of_shop : String → String
of_shop key = if key == "client_id" then "shop" else ""

abbrev visit_token : HttpRequest
visit_token = visit "/oauth/token" (λ k. "") of_shop

abbrev failing_shop : World
failing_shop = at_start (record empty_db {
  clients = ("shop", client_row sample (record shop { force_error = "access_denied" })) ∷ [];
})

protocol-forced_example :
    (a : Action) × (a ≢ next)
    × ((protocol sample silent (new (pos 5)) 1 2 visit_token failing_shop).0
        ≡ ok (
          logged sample silent
              (new (pos 5))
              visit_token
              1
              2
              (some (userinfo_challenge visit_token (silent.write_action visit_token a))),
          some (userinfo_challenge visit_token (silent.write_action visit_token a)),
        ))
    × ((protocol sample silent (new (pos 5)) 1 2 visit_token failing_shop).1.db ≡ failing_shop.db)
unfolding get is_protocol_endpoint is_authorize_endpoint is_token_endpoint client_id_from_request
    client_row has_suffix
protocol-forced_example =
    protocol-forced sample sample-Healthy silent visit_token failing_shop
      (client_row sample (record shop { force_error = "access_denied" })) refl
      (differ "shop" "" refl) refl (differ "access_denied" "" refl) (new (pos 5)) 1 2

-- A provider that refuses every request, and a request for the user's claims.
abbrev refusing : Backend Unit
refusing = record silent { provider = λ alg r. pure (status 401 ∷ writes "denied" ∷ []) }

abbrev visit_userinfo : HttpRequest
visit_userinfo = record (visit "/userinfo" (λ k. "") (λ k. "")) { method = "GET" }

abbrev refused : List Sent
refused = sent_status 401 (challenge []) ∷ sent_body "denied" ∷ []

abbrev answer : Log × Option (List Sent)
answer = (logged sample refusing (new (pos 5)) visit_userinfo 1 2 (some refused), some refused)

refused_here :
    (protocol sample refusing (new (pos 5)) 1 2 visit_userinfo (at_start empty_db)).0 ≡ ok answer
unfolding form_seen protocol discovery_layer discovery_override behavior_layer middleware has_suffix
    is_token_endpoint signing_layer signing_alg ropc_layer intercepts header_set get
refused_here = refl

protocol-challenged_example : header_value www_authenticate (challenge []) ≢ ""
unfolding get put
protocol-challenged_example =
    protocol-challenged sample refusing (new (pos 5)) answer.0 1 2 visit_userinfo
      (at_start empty_db) refused (challenge []) refl refused_here refl

abbrev es_shop : World
es_shop = at_start (record empty_db {
  clients = ("shop", client_row sample (record shop { id_token_sign_alg = "ES256" })) ∷ [];
})

signing_alg-signing_key_example :
    (k : SigningKey String) × (after : Keys String) × ((signing_alg sample visit_token es_shop).0
      ≡ ok "ES256")
    × ((signing_key sample plain_keys keys made_new "ES256"
          (signing_alg sample visit_token es_shop).1).0
        ≡ ok (k, after))
    × (k.algorithm ≡ "ES256")
    × Origin sample plain_keys plain_keys-KeyRoundTrips keys made_new "ES256"
        (signing_alg sample visit_token es_shop).1
        k
unfolding get is_authorize_or_token is_token_endpoint request_client_id client_id_from_request
    client_row is_supported_alg encode_private_pem
signing_alg-signing_key_example =
    signing_alg-signing_key sample sample-Healthy visit_token es_shop
      (client_row sample (record shop { id_token_sign_alg = "ES256" })) refl (differ "shop" "" refl)
      refl (differ "ES256" "" refl) refl plain_keys keys keys-IsSorted made_new "new" "new"
      new-IsGenerated refl plain_keys-KeyRoundTrips refl
