-- ===== src/Examples/Requests.antt =====
-- Examples for the auth requests, the login pages, the forced errors and the password grant.
use oidc_test_idp.Prelude.{◌≡◌, refl, eq_iff, arith}
use oidc_test_idp.Table.{get}
use oidc_test_idp.Db.{ok}
use oidc_test_idp.Storage.AuthRequests.{complete_auth_request, delete_auth_request}
use oidc_test_idp.Storage.AuthRequests.Runs.{request_of}
use oidc_test_idp.Storage.AuthRequests.Login.{
  completed, IsKeyed, request_of-request_row, load-complete_auth_request,
}
use oidc_test_idp.Storage.AuthRequests.Codes.{IsDeleted, delete_auth_request-IsDeleted}
use oidc_test_idp.Sample.{sample, sample-Healthy, sample-RoundTrips}
use oidc_test_idp.Examples.Fixtures.{pending, login, request_text}

stored : request_of sample (get "req" login.auth_requests) ≡ ok pending
unfolding get
stored =
    request_of-request_row sample sample-RoundTrips sample-Healthy pending (request_text pending)
      refl (omega arith)

login-IsKeyed : IsKeyed sample login
unfolding get
login-IsKeyed id req h = ground (arith, stored, eq_iff "req" id)

load-complete_auth_request_example :
    request_of sample (get "req" (complete_auth_request sample "req" "alice" login).1.auth_requests)
    ≡ ok (completed sample login "alice" pending)
load-complete_auth_request_example =
    load-complete_auth_request sample sample-RoundTrips sample-Healthy "req" "alice" login pending
      (request_text (completed sample login "alice" pending)) login-IsKeyed (omega arith) stored
      refl "req"

delete_auth_request-IsDeleted_example :
    IsDeleted sample sample-Healthy "req" login (delete_auth_request sample "req" login).1
delete_auth_request-IsDeleted_example =
    delete_auth_request-IsDeleted sample sample-Healthy "req" login
