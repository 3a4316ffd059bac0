-- ===== src/Storage/AuthRequests/Codes.antt =====
-- Authorization codes: what they lead to, and what is left when a request is deleted.
use oidc_test_idp.Prelude.{
  ◌<◌, String, ◌==◌, eq_iff, eq_refl, ◌≡◌, ◌≢◌, refl, none, some, arith, if◌then◌else◌,
}
use oidc_test_idp.Table.{
  get, insert, get-put, get-delete, get-delete_where_sound, get-delete_where_kept, insert-put,
}
use oidc_test_idp.Models.{AuthRequest}
use oidc_test_idp.Platform.{Platform, RoundTrips, Healthy, year_10000}
use oidc_test_idp.Db.{World, request_not_found, err}
use oidc_test_idp.Db.Statements.{changed, exec_lem}
use oidc_test_idp.Storage.AuthRequests.{
  request_row, set_codes, save_auth_request, auth_request_by_code, save_auth_code,
  delete_auth_request,
}
use oidc_test_idp.Storage.AuthRequests.Runs.{
  request_of, request_behind, save_auth_request_lem, auth_request_by_code_lem,
  delete_auth_request_lem,
}
use oidc_test_idp.Storage.AuthRequests.Login.{IsKeyed, request_of-request_row}

module _ (p : Platform) (healthy : Healthy p) where
  -- While the driver works, after a fresh code is saved for a request, that code leads where the
  -- id of the request leads, and any other code leads where it led before.
  pub auth_request_by_code-save_auth_code :
      (id code other : String) (w : World)
      → get code w.auth_codes ≡ none
      → (auth_request_by_code p other (save_auth_code p id code w).1).0 ≡ (
          if code == other
          then request_of p (get id w.auth_requests)
          else request_behind p w (get other w.auth_codes))
  unfolding save_auth_code
  auth_request_by_code-save_auth_code id code other w fresh =
      simp
        (
          auth_request_by_code_lem p healthy,
          exec_lem p healthy,
          insert-put code id w.auth_codes fresh,
          get-put,
        )
        (ground arith)

  -- A code that is taken is refused, and the database stays as it was.
  pub save_auth_code_taken :
      (id code old : String) (w : World)
      → get code w.auth_codes ≡ some old
      → save_auth_code p id code w ≡ changed w none
  unfolding save_auth_code insert
  save_auth_code_taken id code old w h =
      ground (arith, exec_lem p healthy (λ d. set_codes d (insert code id d.auth_codes)) w)

  -- After `DeleteAuthRequest` the request is not found, no code leads to it, and every other
  -- request and every code of another request stay.
  pub record IsDeleted (id : String) (before after : World) : Type 0 where
    pub gone : request_of p (get id after.auth_requests) ≡ err request_not_found
    pub no_code : (code : String) → get code after.auth_codes ≢ some id
    pub kept : (j : String) → id ≢ j → get j after.auth_requests ≡ get j before.auth_requests
    pub kept_code :
        (code j : String)
        → id ≢ j
        → get code before.auth_codes ≡ some j
        → get code after.auth_codes ≡ some j
    -- All tables but these two are the same.
    pub rest :
        after.db
        ≡ record before.db { auth_codes = after.auth_codes; auth_requests = after.auth_requests }

  -- While the driver works, after DeleteAuthRequest the request is not found, no code leads to it,
  -- every other request and every code of another request stay, and no other table changes.
  pub delete_auth_request-IsDeleted :
      (id : String) (w : World) → IsDeleted id w (delete_auth_request p id w).1
  delete_auth_request-IsDeleted id w = rw (delete_auth_request_lem p healthy id w) (record {
    gone = rw (get-delete id id w.auth_requests, eq_refl id);
    no_code = λ code h. ground (
      arith,
      eq_iff id id,
      get-delete_where_sound (λ (r : String). r == id) code id w.auth_codes h,
    );
    kept = λ j h. ground (arith, get-delete id j w.auth_requests, eq_iff id j);
    kept_code = λ code j h e.
        get-delete_where_kept (λ (r : String). r == id) code j w.auth_codes e
          (ground (arith, eq_iff j id));
    rest = refl;
  })

  -- With a driver that works and texts that round-trip, saving a request that can be marshalled
  -- and whose auth time lies before the year 10000 keeps a keyed store keyed: each row holds the
  -- request of its key.
  save_auth_request-IsKeyed :
      (trips : RoundTrips p) (req : AuthRequest) (data_text : String) (w : World)
      → p.marshal_request req ≡ some data_text
      → req.auth_time < year_10000
      → IsKeyed p w
      → IsKeyed p (save_auth_request p req w).1
  save_auth_request-IsKeyed trips req data_text w m early keyed id found h = ground (
    arith,
    save_auth_request_lem p healthy req data_text w m,
    get-put req.id id (request_row p data_text req) w.auth_requests,
    request_of-request_row p trips healthy req data_text m early,
    eq_iff req.id id,
    keyed id found,
  )
