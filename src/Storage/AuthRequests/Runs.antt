-- ===== src/Storage/AuthRequests/Runs.antt =====
-- What the actions on auth requests come to while the driver works.
use oidc_test_idp.Prelude.{String, ◌≡◌, ◌==◌, Option, none, some, inl, inr, arith, Option-cases}
use oidc_test_idp.Table.{get, put, delete, delete_where}
use oidc_test_idp.Models.{AuthRequest}
use oidc_test_idp.Platform.{Platform, Healthy}
use oidc_test_idp.Db.{
  AuthRequestRow, World, request_not_found, code_invalid, unmarshal, Result, ok, err,
}
use oidc_test_idp.Db.Statements.{counted_on, query_lem, exec_lem}
use oidc_test_idp.Storage.AuthRequests.{
  request_row, scan_request, save_auth_request, load_auth_request, auth_request_by_code,
  delete_auth_request,
}

abbrev pub read_request : Platform → AuthRequestRow → Option AuthRequest → Result AuthRequest
read_request p row none = err unmarshal
read_request p row (some req) = ok (scan_request p row req)

abbrev pub request_of : Platform → Option AuthRequestRow → Result AuthRequest
request_of p none = err request_not_found
request_of p (some row) = read_request p row (p.unmarshal_request row.data_text)

abbrev pub request_behind : Platform → World → Option String → Result AuthRequest
request_behind p w none = err code_invalid
request_behind p w (some id) = request_of p (get id w.auth_requests)

module _ (p : Platform) (healthy : Healthy p) where
  pub load_auth_request_lem :
      (id : String) (w : World)
      → load_auth_request p id w ≡ (request_of p (get id w.auth_requests), counted_on w)
  unfolding load_auth_request
  load_auth_request_lem id w = ground (arith, query_lem p healthy (λ d. get id d.auth_requests) w)

  pub save_auth_request_lem :
      (req : AuthRequest) (data_text : String) (w : World)
      → p.marshal_request req ≡ some data_text
      → save_auth_request p req w ≡ (
        ok tt,
        record (counted_on w) {
          db = record w.db {
            auth_requests = put req.id (request_row p data_text req) w.auth_requests;
          };
        },
      )
  unfolding save_auth_request
  save_auth_request_lem req data_text w m = simp (m, exec_lem p healthy)

  pub auth_request_by_code_lem :
      (code : String) (w : World)
      → (auth_request_by_code p code w).0 ≡ request_behind p w (get code w.auth_codes)
  unfolding auth_request_by_code
  auth_request_by_code_lem code w = elim (Option-cases (get code w.auth_codes)) [
    | inl e ↦ ground (arith, query_lem p healthy (λ d. get code d.auth_codes) w, e)
    | inr (id, e) ↦ ground (
      arith,
      query_lem p healthy (λ d. get code d.auth_codes) w,
      e,
      load_auth_request_lem id (counted_on w),
    )
  ]

  pub delete_auth_request_lem :
      (id : String) (w : World)
      → delete_auth_request p id w ≡ (
        ok tt,
        record (counted_on (counted_on w)) {
          db = record w.db {
            auth_codes = delete_where (λ request. request == id) w.auth_codes;
            auth_requests = delete id w.auth_requests;
          };
        },
      )
  unfolding delete_auth_request
  delete_auth_request_lem id w = simp (exec_lem p healthy)
