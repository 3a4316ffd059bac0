-- ===== src/Auth/Flow.antt =====
-- The authorization code flow: create, log in, save a code, redeem it.
use oidc_test_idp.Prelude.{
  suc, ◌<◌, String, eq_iff, eq_refl, ◌≡◌, refl, ap, ◌∙◌, true, false, none, some, arith, is_nonzero,
}
use oidc_test_idp.Table.{get, put, get-put}
use oidc_test_idp.Http.{HttpRequest}
use oidc_test_idp.Models.{AuthRequest, OidcAuthRequest, auth_request_to_internal}
use oidc_test_idp.Platform.{Platform, RoundTrips, Healthy, year_10000}
use oidc_test_idp.Db.{ClientRow, Db, World, ok, new_string, time_now}
use oidc_test_idp.Db.Statements.{counted_on}
use oidc_test_idp.Storage.AuthRequests.{
  stamp_user, only_none, request_row, create_auth_request, save_auth_code, auth_request_by_code,
}
use oidc_test_idp.Storage.AuthRequests.Runs.{request_of, save_auth_request_lem}
use oidc_test_idp.Storage.AuthRequests.Login.{
  completed, IsKeyed, request_of-request_row, complete_auth_request_lem,
}
use oidc_test_idp.Storage.AuthRequests.Codes.{auth_request_by_code-save_auth_code}
use oidc_test_idp.Auth.{to_callback, do_login}
use oidc_test_idp.Auth.Consent.{complete_ok, do_login_lem, do_login-completed}

module _ (p : Platform) (healthy : Healthy p) (trips : RoundTrips p) (asked : OidcAuthRequest)
    (user_id : String) (w : World) where
  -- The request that is created.
  abbrev pub created : AuthRequest
  created = record (auth_request_to_internal (p.clock w.times) asked user_id) { id = p.uuid w.ids }

  -- The world after it is created.
  abbrev pub after_create : World
  after_create = (create_auth_request p asked user_id w).1

  -- The request as the login leaves it.
  abbrev pub logged_in : HttpRequest → AuthRequest
  logged_in r = completed p (counted_on (counted_on after_create)) (r.form "userID") created

  module _ (text : String) (interactive : only_none asked.prompt ≡ false)
      (m : p.marshal_request created ≡ some text) where
    create_lem :
        ((create_auth_request p asked user_id w).0 ≡ ok created)
        × (after_create.db ≡ record w.db {
          auth_requests = put created.id (request_row p text created) w.auth_requests;
        })
    unfolding create_auth_request new_string time_now
    create_lem =
        let v = record w { times = suc w.times; ids = suc w.ids } in
        (
          simp (interactive, save_auth_request_lem p healthy created text v m),
          ground (arith, interactive, save_auth_request_lem p healthy created text v m),
        )

    created-auth_time : created.auth_time < year_10000
    unfolding auth_request_to_internal
    created-auth_time = omega arith

    created_found : request_of p (get created.id after_create.auth_requests) ≡ ok created
    created_found =
        rw
          (
            create_lem.1,
            get-put created.id created.id (request_row p text created) w.auth_requests,
            eq_refl created.id,
          )
          (request_of-request_row p trips healthy created text m created-auth_time)

    created-IsKeyed : IsKeyed p w → IsKeyed p after_create
    created-IsKeyed keyed id req h = ground (
      arith,
      create_lem.1,
      get-put created.id id (request_row p text created) w.auth_requests,
      request_of-request_row p trips healthy created text m created-auth_time,
      eq_iff created.id id,
      keyed id req,
    )

    module _ (r : HttpRequest) (row : ClientRow) (parses : r.parses ≡ true)
        (named : r.form "authRequestID" ≡ created.id)
        (known : get asked.client_id w.clients ≡ some row) (keyed : IsKeyed p w) where
      login_found :
          request_of p (get (r.form "authRequestID") after_create.auth_requests) ≡ ok created
      login_found = rw named created_found

      client_known : get created.application_id after_create.clients ≡ some row
      unfolding auth_request_to_internal
      client_known = rw create_lem.1 known

      module _ (data_text : String) (consent : is_nonzero row.require_consent ≡ false)
          (m' : p.marshal_request (logged_in r) ≡ some data_text)
          (early : p.clock after_create.times < year_10000) where
        login_codes : (do_login p r after_create).1.auth_codes ≡ w.auth_codes
        login_codes =
            rw
              (do_login_lem p healthy r after_create created parses login_found row client_known
                consent
                (complete_ok p healthy r after_create created parses login_found row client_known
                  data_text m'))
              (ap (λ (d : Db). d.auth_codes)
                  (complete_auth_request_lem p healthy (r.form "authRequestID") (r.form "userID")
                    (counted_on (counted_on after_create)) created data_text login_found m')
                ∙ ap (λ (d : Db). d.auth_codes) create_lem.1)

        -- With a driver that works, texts that round-trip and a keyed store, an authorization
        -- request without prompt=none that is created for a stored client without consent is
        -- completed by a login whose form parses and names it: the login goes to the callback, and
        -- a fresh code that is saved for the request then gives it back, done and for that client;
        -- the two requests that are stored can be marshalled, and the login is before the year
        -- 10000.
        pub code_flow :
            (code : String)
            → get code w.auth_codes ≡ none
            → ((do_login p r after_create).0 ≡ ok (to_callback created.id))
              × ((auth_request_by_code p code
                    (save_auth_code p created.id code (do_login p r after_create).1).1).0
                  ≡ ok (logged_in r))
              × ((logged_in r).done ≡ true)
              × ((logged_in r).application_id ≡ asked.client_id)
        unfolding stamp_user auth_request_to_internal
        code_flow code fresh =
            let (answer, loaded) =
              do_login-completed p healthy r after_create created parses login_found row
                client_known data_text trips consent m' early (created-IsKeyed keyed) in
            (
              rw (answer, named) refl,
              ground (
                arith,
                auth_request_by_code-save_auth_code p healthy created.id code code
                    (do_login p r after_create).1,
                eq_refl code,
                login_codes,
                loaded,
                named,
              ),
              ground arith,
              ground arith,
            )
