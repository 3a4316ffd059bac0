-- ===== src/Examples/Pages.antt =====
-- Examples for the login and consent pages, the forced errors and the password grant.
use oidc_test_idp.Prelude.{
  String, ◌≡◌, ◌==◌, eq_iff, refl, some, [], ◌∷◌, arith, true, if◌then◌else◌, ℤ,
}
use oidc_test_idp.Table.{get, find}
use oidc_test_idp.Http.{HttpRequest}
use oidc_test_idp.Models.{OpClient, AuthRequest}
use oidc_test_idp.Db.{World, ok, M, pure, query, new_string, time_now}
use oidc_test_idp.Repo.Clients.{client_row, scan_client, get_client, get_client_by_client_id}
use oidc_test_idp.Storage.AuthRequests.Runs.{request_of}
use oidc_test_idp.Storage.AuthRequests.Login.{IsKeyed, request_of-request_row}
use oidc_test_idp.Storage.AuthRequests.Codes.{IsDeleted}
use oidc_test_idp.Auth.{to_consent, denied, do_login, do_consent}
use oidc_test_idp.Auth.Consent.{do_consent-IsDeleted, do_login-consent}
use oidc_test_idp.Behavior.{Action, Url, middleware, is_authorize_endpoint, client_id_from_request}
use oidc_test_idp.Behavior.Forced.{
  IsDecided, IsErrorRedirect, middleware-IsDecided, middleware-IsErrorRedirect,
}
use oidc_test_idp.Ropc.{
  ropc_exchange, tokens, with_found, with_user, respond, client_credentials_of, has_grant_type,
}
use oidc_test_idp.Db.Statements.{json_strings-marshal}
use oidc_test_idp.Repo.Users.{user_row, get_user_by_username}
use oidc_test_idp.Ropc.Exchange.{IsGranted, ropc_exchange-IsGranted}
use oidc_test_idp.Sample.{sample, sample-Healthy, sample-RoundTrips}
use oidc_test_idp.Examples.Fixtures.{
  differ, visit, shop, pending, login, consenting, session, request_text, at_start, empty_db,
}

abbrev posted : String → String
posted key =
    if key == "authRequestID"
    then "req"
    else if key == "userID"
    then "alice"
    else if key == "client_id"
    then "shop"
    else if key == "client_secret"
    then "s"
    else if key == "username"
    then "al"
    else ""

abbrev page : HttpRequest
page = visit "/login" (λ k. "") posted

stored_in :
    (w : World)
    → w.auth_requests ≡ login.auth_requests
    → request_of sample (get "req" w.auth_requests) ≡ ok pending
unfolding get
stored_in w h = rw h (
    request_of-request_row sample sample-RoundTrips sample-Healthy pending (request_text pending)
      refl (omega arith))

pending-IsKeyed : (w : World) → w.auth_requests ≡ login.auth_requests → IsKeyed sample w
unfolding get
pending-IsKeyed w h id req e = ground (arith, stored_in w h, eq_iff "req" id)

do_consent-IsDeleted_example :
    ((do_consent sample page login).0 ≡ ok denied)
    × IsDeleted sample sample-Healthy "req" login (do_consent sample page login).1
do_consent-IsDeleted_example =
    do_consent-IsDeleted sample sample-Healthy page login pending refl (stored_in login refl)
      (differ "" "allow" refl)

do_login-consent_example :
    ((do_login sample page consenting).0 ≡ ok (to_consent "req"))
    × (request_of sample (get "req" (do_login sample page consenting).1.auth_requests)
        ≡ ok (record pending { user_id = "alice" }))
unfolding get client_row
do_login-consent_example =
    do_login-consent sample sample-Healthy page consenting pending refl (stored_in consenting refl)
      (client_row sample (record shop { require_consent = true })) refl
      (request_text (record pending { user_id = "alice" })) sample-RoundTrips refl refl
      (omega arith) (pending-IsKeyed consenting refl)

-- A library that issues a token for every request.
abbrev issue_all : AuthRequest → OpClient → M Unit
issue_all a c = pure tt

may_use : has_grant_type (scan_client sample "shop" (client_row sample shop)) "password" ≡ true
unfolding has_grant_type scan_client client_row
may_use = rw (json_strings-marshal sample sample-RoundTrips shop.grant_type_list) refl

granted_here : (ropc_exchange sample issue_all page session).0 ≡ ok (tokens tt)
unfolding ropc_exchange get find with_found with_user respond client_credentials_of get_client
    get_user_by_username get_client_by_client_id query client_row user_row new_string time_now
granted_here = rw may_use refl

ropc_exchange-IsGranted_example : IsGranted sample page session
ropc_exchange-IsGranted_example =
    ropc_exchange-IsGranted sample sample-Healthy issue_all page session tt granted_here

-- A client whose authorization requests are refused, and one such request.
abbrev failing : World
failing = at_start (record empty_db {
  clients = ("shop", client_row sample (record shop { force_error = "access_denied" })) ∷ [];
})

abbrev asked : String → String
asked key =
    if key == "client_id"
    then "shop"
    else if key == "state"
    then "xyz"
    else if key == "redirect_uri"
    then "https://shop/cb"
    else ""

abbrev authorize : HttpRequest
authorize = visit "/authorize" asked (λ k. "")

abbrev callback : Url
callback = record { rest = "https://shop/cb"; values = [] }

middleware-IsDecided_example :
    IsDecided
      (λ s. some callback)
      sample
      sample-Healthy
      authorize
      failing
      (middleware (λ s. some callback) sample authorize failing)
middleware-IsDecided_example =
    middleware-IsDecided (λ s. some callback) sample sample-Healthy authorize failing

middleware-IsErrorRedirect_example :
    (d : ℤ) × (a : Action) × ((middleware (λ s. some callback) sample authorize failing).0
      ≡ ok (d, a))
    × IsErrorRedirect
        (λ s. some callback)
        sample
        sample-Healthy
        authorize
        failing
        "access_denied"
        callback
        a
unfolding get is_authorize_endpoint client_id_from_request client_row
middleware-IsErrorRedirect_example =
    middleware-IsErrorRedirect (λ s. some callback) sample sample-Healthy authorize failing
      (client_row sample (record shop { force_error = "access_denied" })) callback refl
      (differ "shop" "" refl) refl (differ "access_denied" "" refl)
      (differ "https://shop/cb" "" refl) refl
