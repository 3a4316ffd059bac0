-- ===== src/Examples/Flow.antt =====
-- Examples for histories of operations and the authorization code flow.
use oidc_test_idp.Prelude.{String, ◌≡◌, ◌==◌, refl, none, [], ◌∷◌, arith, true, if◌then◌else◌}
use oidc_test_idp.Table.{get}
use oidc_test_idp.Http.{HttpRequest}
use oidc_test_idp.Models.{OidcAuthRequest, AuthRequest}
use oidc_test_idp.Db.{World, ok, new_string, time_now, exec}
use oidc_test_idp.Repo.Clients.{client_row}
use oidc_test_idp.Storage.Sound.{IsSound}
use oidc_test_idp.Storage.Sound.Reach.{
  Operation, saves_client, stores_device, perform, here, next, Reach-IsSound,
}
use oidc_test_idp.Storage.AuthRequests.{
  create_auth_request, save_auth_request, save_auth_code, auth_request_by_code,
}
use oidc_test_idp.Storage.AuthRequests.Login.{IsKeyed}
use oidc_test_idp.Auth.{to_callback, do_login}
use oidc_test_idp.Auth.Flow.{created, after_create, logged_in, code_flow}
use oidc_test_idp.Sample.{sample, sample-Healthy, sample-RoundTrips}
use oidc_test_idp.Examples.Keys.{plain_keys}
use oidc_test_idp.Examples.Fixtures.{shop, visit, empty_db, at_start, request_text}

empty_db-IsSound : IsSound sample empty_db
unfolding get
empty_db-IsSound = record {
  codes = λ j k r s e f h. cc;
  names = λ j k r s e f h. cc;
  keyed = λ id row req e f. cc;
  algorithms = λ id row e. cc;
}

abbrev saved : Operation String
saved = saves_client shop

abbrev polled : Operation String
polled = stores_device "shop" "dev" "AB-CD" 50 []

Reach-IsSound_example :
    IsSound sample
      (perform sample plain_keys polled (perform sample plain_keys saved (at_start empty_db))).db
Reach-IsSound_example =
    Reach-IsSound sample plain_keys sample-RoundTrips (next (next here saved) polled)
      empty_db-IsSound

abbrev asking : OidcAuthRequest
asking = record {
  scopes = "openid" ∷ [];
  response_type = "code";
  client_id = "shop";
  redirect_uri = "https://shop/cb";
  state = "st";
  nonce = "n";
  response_mode = "";
  prompt = [];
  max_age = none;
  ui_locales = [];
  login_hint = "";
  code_challenge = "";
  code_challenge_method = "";
}

abbrev open_shop : World
open_shop = at_start (record empty_db { clients = ("shop", client_row sample shop) ∷ [] })

abbrev login_page : HttpRequest
login_page =
    visit "/login" (λ k. "")
      (λ key. if key == "authRequestID" then "u" else if key == "userID" then "alice" else "")

open_shop-IsKeyed : IsKeyed sample open_shop
unfolding get
open_shop-IsKeyed id req e = cc

-- The request that is created, and the world after it.
abbrev asked : AuthRequest
asked = created sample sample-Healthy sample-RoundTrips asking "" open_shop

abbrev waiting : World
waiting = after_create sample sample-Healthy sample-RoundTrips asking "" open_shop

abbrev answered : AuthRequest
answered = logged_in sample sample-Healthy sample-RoundTrips asking "" open_shop login_page

code_flow_example :
    ((do_login sample login_page waiting).0 ≡ ok (to_callback "u"))
    × ((auth_request_by_code sample "code"
          (save_auth_code sample "u" "code" (do_login sample login_page waiting).1).1).0
        ≡ ok answered)
    × (answered.done ≡ true)
    × (answered.application_id ≡ "shop")
unfolding get create_auth_request save_auth_request new_string time_now exec client_row
code_flow_example =
    code_flow sample sample-Healthy sample-RoundTrips asking "" open_shop (request_text asked) refl
      refl login_page (client_row sample shop) refl refl refl open_shop-IsKeyed
      (request_text answered) refl refl (omega arith) "code" refl
