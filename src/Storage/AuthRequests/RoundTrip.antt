-- ===== src/Storage/AuthRequests/RoundTrip.antt =====
-- Auth requests are stored and loaded without loss.
use oidc_test_idp.Prelude.{◌<◌, String, ◌≡◌, some, eq_refl}
use oidc_test_idp.Table.{get-put}
use oidc_test_idp.Models.{AuthRequest}
use oidc_test_idp.Platform.{Platform, RoundTrips, Healthy, year_10000, exported}
use oidc_test_idp.Db.{World, ok}
use oidc_test_idp.Db.Statements.{query_lem, exec_lem, is_nonzero-bool_int, parse_time-time_str}
use oidc_test_idp.Storage.AuthRequests.{
  request_row, scan_request, save_auth_request, load_auth_request,
}

module _ (p : Platform) (trips : RoundTrips p) (healthy : Healthy p) where
  pub scan_request-request_row :
      (data_text : String) (req : AuthRequest)
      → req.auth_time < year_10000
      → scan_request p (request_row p data_text req) (exported req) ≡ req
  unfolding scan_request request_row
  scan_request-request_row data_text req h =
      simp (is_nonzero-bool_int, parse_time-time_str p trips req.auth_time h)

  -- With a driver that works and texts that round-trip, a request that can be marshalled and whose
  -- auth time lies before the year 10000 loads after its save as it was saved.
  load-save :
      (req : AuthRequest) (data_text : String) (w : World)
      → p.marshal_request req ≡ some data_text
      → req.auth_time < year_10000
      → (load_auth_request p req.id (save_auth_request p req w).1).0 ≡ ok req
  unfolding load_auth_request save_auth_request
  load-save req data_text w m h = simp (
    m,
    exec_lem p healthy,
    query_lem p healthy,
    get-put,
    eq_refl,
    trips.request req data_text m,
    scan_request-request_row data_text req h,
  )
