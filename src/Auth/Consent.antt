-- ===== src/Auth/Consent.antt =====
-- Login and consent: when an auth request becomes done.
use oidc_test_idp.Prelude.{
  ◌<◌, String, eq_iff, eq_refl, ◌≡◌, ◌≢◌, refl, true, false, some, arith, is_nonzero,
}
use oidc_test_idp.Table.{get, put, get-put}
use oidc_test_idp.Http.{HttpRequest}
use oidc_test_idp.Models.{AuthRequest}
use oidc_test_idp.Platform.{Platform, RoundTrips, Healthy, year_10000}
use oidc_test_idp.Db.{ClientRow, World, ok, time_now}
use oidc_test_idp.Db.Statements.{counted_on}
use oidc_test_idp.Repo.Clients.{scan_client}
use oidc_test_idp.Repo.Clients.Runs.{get_client_lem}
use oidc_test_idp.Repo.Users.Runs.{get_user_lem}
use oidc_test_idp.Storage.AuthRequests.{
  request_row, auth_request_by_id, set_auth_request_user, complete_auth_request,
  delete_auth_request,
}
use oidc_test_idp.Storage.AuthRequests.Runs.{
  request_of, load_auth_request_lem, save_auth_request_lem,
}
use oidc_test_idp.Storage.AuthRequests.Login.{
  completed, stamp_user_lem, IsKeyed, request_of-request_row, load-complete_auth_request,
}
use oidc_test_idp.Storage.AuthRequests.Codes.{IsDeleted, delete_auth_request-IsDeleted}
use oidc_test_idp.Auth.{
  to_consent, to_callback, denied, login_client, login_request, do_login, decide, do_consent,
}

module _ (p : Platform) (healthy : Healthy p) where
  auth_request_by_id_lem :
      (id : String) (w : World)
      → auth_request_by_id p id w ≡ (request_of p (get id w.auth_requests), counted_on w)
  unfolding auth_request_by_id
  auth_request_by_id_lem id w = load_auth_request_lem p healthy id w

  module _ (r : HttpRequest) (w : World) (req : AuthRequest) (parses : r.parses ≡ true)
      (found : request_of p (get (r.form "authRequestID") w.auth_requests) ≡ ok req) where
    do_consent_denied :
        r.form "action" ≢ "allow"
        → do_consent p r w
          ≡ (ok denied, (delete_auth_request p (r.form "authRequestID") (counted_on w)).1)
    unfolding do_consent decide
    do_consent_denied other =
        ground (
          arith,
          auth_request_by_id_lem (r.form "authRequestID") w,
          eq_iff (r.form "action") "allow",
        )

    -- While the driver works, for a parsed form that names a stored request, any decision but
    -- "allow" is a denial: the page says so, the auth request and its codes are deleted, every
    -- other request and every code of another request stay, and no other table changes.
    pub do_consent-IsDeleted :
        r.form "action" ≢ "allow"
        → ((do_consent p r w).0 ≡ ok denied)
          × IsDeleted p healthy (r.form "authRequestID") w (do_consent p r w).1
    do_consent-IsDeleted other =
        let d = delete_auth_request-IsDeleted p healthy (r.form "authRequestID") (counted_on w) in
        rw (do_consent_denied other) (
          refl,
          record {
            gone = d.gone;
            no_code = d.no_code;
            kept = d.kept;
            kept_code = d.kept_code;
            rest = d.rest;
          },
        )

    module _ (row : ClientRow) (known : get req.application_id w.clients ≡ some row) where
      set_auth_request_user_lem :
          (v : World) (data_text : String)
          → request_of p (get (r.form "authRequestID") v.auth_requests) ≡ ok req
          → p.marshal_request (record req { user_id = r.form "userID" }) ≡ some data_text
          → set_auth_request_user p (r.form "authRequestID") (r.form "userID") v ≡ (
            ok tt,
            record (counted_on (counted_on v)) {
              db = record v.db {
                auth_requests =
                    put req.id
                      (request_row p data_text (record req { user_id = r.form "userID" }))
                      v.auth_requests;
              };
            },
          )
      unfolding set_auth_request_user
      set_auth_request_user_lem v data_text h m = simp (
        load_auth_request_lem p healthy,
        h,
        save_auth_request_lem p healthy (record req { user_id = r.form "userID" }) data_text _ m,
      )

      -- If the client wants consent, a login does not complete the request: the browser goes to
      -- the consent page, and the request loads with the user and otherwise as it was; it needs a
      -- working driver, texts that round-trip, a parsed form, a stored request and client, a
      -- request that can be marshalled with an auth time before the year 10000, and a keyed store.
      pub do_login-consent :
          (data_text : String)
          → RoundTrips p
          → is_nonzero row.require_consent ≡ true
          → p.marshal_request (record req { user_id = r.form "userID" }) ≡ some data_text
          → req.auth_time < year_10000
          → IsKeyed p w
          → ((do_login p r w).0 ≡ ok (to_consent (r.form "authRequestID")))
            × (request_of p (get (r.form "authRequestID") (do_login p r w).1.auth_requests)
                ≡ ok (record req { user_id = r.form "userID" }))
      unfolding do_login login_request login_client scan_client
      do_login-consent data_text trips consent m early keyed = ground (
        arith,
        auth_request_by_id_lem (r.form "authRequestID") w,
        get_client_lem p healthy req.application_id (counted_on w),
        set_auth_request_user_lem (counted_on (counted_on w)) data_text found m,
        keyed (r.form "authRequestID") req found,
        get-put req.id (r.form "authRequestID")
            (request_row p data_text (record req { user_id = r.form "userID" })) w.auth_requests,
        eq_iff req.id (r.form "authRequestID"),
        request_of-request_row p trips healthy (record req { user_id = r.form "userID" }) data_text
            m,
      )

      -- The world in which the login completes the request: two statements have run.
      abbrev pub looked_up : World
      looked_up = counted_on (counted_on w)

      pub complete_ok :
          (data_text : String)
          → p.marshal_request (completed p looked_up (r.form "userID") req) ≡ some data_text
          → (complete_auth_request p (r.form "authRequestID") (r.form "userID") looked_up).0 ≡ ok tt
      unfolding complete_auth_request time_now
      complete_ok data_text m = simp (
        load_auth_request_lem p healthy,
        found,
        get_user_lem p healthy,
        stamp_user_lem,
        save_auth_request_lem p healthy (completed p looked_up (r.form "userID") req) data_text _ m,
      )

      pub do_login_lem :
          is_nonzero row.require_consent ≡ false
          → (complete_auth_request p (r.form "authRequestID") (r.form "userID") looked_up).0 ≡ ok tt
          → do_login p r w ≡ (
            ok (to_callback (r.form "authRequestID")),
            (complete_auth_request p (r.form "authRequestID") (r.form "userID") looked_up).1,
          )
      unfolding do_login login_request login_client scan_client
      do_login_lem consent done = ground (
        arith,
        auth_request_by_id_lem (r.form "authRequestID") w,
        get_client_lem p healthy req.application_id (counted_on w),
      )

      -- If the client wants no consent, a login completes the request and goes to the callback,
      -- and the request then loads as done; it needs a working driver, texts that round-trip, a
      -- parsed form, a stored request and client, a completed request that can be marshalled, a
      -- clock before the year 10000, and a keyed store.
      pub do_login-completed :
          (data_text : String)
          → RoundTrips p
          → is_nonzero row.require_consent ≡ false
          → p.marshal_request (completed p looked_up (r.form "userID") req) ≡ some data_text
          → p.clock w.times < year_10000
          → IsKeyed p w
          → ((do_login p r w).0 ≡ ok (to_callback (r.form "authRequestID")))
            × (request_of p (get (r.form "authRequestID") (do_login p r w).1.auth_requests)
                ≡ ok (completed p looked_up (r.form "userID") req))
      do_login-completed data_text trips consent m early keyed =
          rw (do_login_lem consent (complete_ok data_text m)) (
            refl,
            ground (
              arith,
              load-complete_auth_request p trips healthy (r.form "authRequestID") (r.form "userID")
                  looked_up req data_text keyed early found m (r.form "authRequestID"),
              eq_refl (r.form "authRequestID"),
            ),
          )
