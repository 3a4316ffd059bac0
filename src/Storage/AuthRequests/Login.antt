-- ===== src/Storage/AuthRequests/Login.antt =====
-- Completing, coding and deleting an auth request.
use oidc_test_idp.Prelude.{
  ◌<◌, String, ◌==◌, eq_iff, ◌≡◌, refl, ℕ, List, true, some, arith, if◌then◌else◌,
}
use oidc_test_idp.Table.{get, put, get-put}
use oidc_test_idp.Models.{subject_or_id, User, AuthRequest, OidcAuthRequest}
use oidc_test_idp.Platform.{Platform, RoundTrips, Healthy, year_10000}
use oidc_test_idp.Db.{World, login_required, Error, Result, ok, err, time_now}
use oidc_test_idp.Db.Statements.{counted_on}
use oidc_test_idp.Repo.Users.Runs.{user_of, get_user_lem}
use oidc_test_idp.Storage.AuthRequests.{
  only_none, request_row, create_auth_request, stamp_user, complete_auth_request,
}
use oidc_test_idp.Storage.AuthRequests.Runs.{
  request_of, load_auth_request_lem, save_auth_request_lem,
}
use oidc_test_idp.Storage.AuthRequests.RoundTrip.{scan_request-request_row}

-- A request with `prompt=none` alone is refused, and nothing is asked of the database.
pub create_auth_request-prompt_none :
    (p : Platform) (req : OidcAuthRequest) (user_id : String) (w : World)
    → only_none req.prompt ≡ true
    → create_auth_request p req user_id w ≡ (err login_required, w)
unfolding create_auth_request
create_auth_request-prompt_none p req user_id w h = rw h

-- Who has logged in: the custom subject of the user, else the user's id; without the user, the id
-- that was typed.
abbrev pub login_user : Result User → String → String
login_user (err _) typed = typed
login_user (ok u) typed = if u.subject == "" then u.id else u.subject

abbrev pub login_acr : Result User → String → String
login_acr (err _) old = old
login_acr (ok u) old = u.acr

abbrev pub login_amr : Result User → List String → List String
login_amr (err _) old = old
login_amr (ok u) old = u.amr

-- A request that the user, or the user id alone, has completed at the time.
abbrev pub completed_by : Result User → String → ℕ → AuthRequest → AuthRequest
completed_by u typed now req = record req {
  done = true;
  auth_time = now;
  user_id = login_user u typed;
  acr_value = login_acr u req.acr_value;
  amr_values = login_amr u req.amr_values;
}

abbrev pub completed : Platform → World → String → AuthRequest → AuthRequest
completed p w user_id req =
    completed_by (user_of p user_id (get user_id w.users)) user_id (p.clock w.times) req

pub stamp_user_lem :
    (u : Result User) (typed : String) (now : ℕ) (req : AuthRequest)
    → stamp_user u (record req { done = true; auth_time = now; user_id = typed })
      ≡ completed_by u typed now req
unfolding stamp_user subject_or_id
stamp_user_lem (err _) typed now req = refl
stamp_user_lem (ok u) typed now req = refl

module _ (p : Platform) (healthy : Healthy p) where
  -- A request that cannot be loaded is not completed: the error comes back, and the database
  -- stays as it was.
  pub complete_auth_request_fails :
      (id user_id : String) (w : World) (e : Error)
      → request_of p (get id w.auth_requests) ≡ err e
      → complete_auth_request p id user_id w ≡ (err e, counted_on w)
  unfolding complete_auth_request
  complete_auth_request_fails id user_id w e h = simp (load_auth_request_lem p healthy, h)

  pub complete_auth_request_lem :
      (id user_id : String) (w : World) (req : AuthRequest) (data_text : String)
      → request_of p (get id w.auth_requests) ≡ ok req
      → p.marshal_request (completed p w user_id req) ≡ some data_text
      → (complete_auth_request p id user_id w).1.db ≡ record w.db {
        auth_requests =
            put
              (completed p w user_id req).id
              (request_row p data_text (completed p w user_id req))
              w.auth_requests;
      }
  unfolding complete_auth_request time_now
  complete_auth_request_lem id user_id w req data_text h m = simp (
    load_auth_request_lem p healthy,
    h,
    get_user_lem p healthy,
    stamp_user_lem,
    save_auth_request_lem p healthy (completed p w user_id req) data_text _ m,
  )

-- A row holds the request of its key.
abbrev pub IsKeyed : Platform → World → Type 0
IsKeyed p w =
    (id : String) (req : AuthRequest) → request_of p (get id w.auth_requests) ≡ ok req → req.id ≡ id

module _ (p : Platform) (trips : RoundTrips p) (healthy : Healthy p) where
  -- What a stored request reads as.
  pub request_of-request_row :
      (req : AuthRequest) (data_text : String)
      → p.marshal_request req ≡ some data_text
      → req.auth_time < year_10000
      → request_of p (some (request_row p data_text req)) ≡ ok req
  unfolding request_row
  request_of-request_row req data_text m h =
      simp (trips.request req data_text m, scan_request-request_row p trips healthy data_text req h)

  module _ (id user_id : String) (w : World) (req : AuthRequest) (data_text : String)
      (keyed : IsKeyed p w) (early : p.clock w.times < year_10000)
      (found : request_of p (get id w.auth_requests) ≡ ok req)
      (m : p.marshal_request (completed p w user_id req) ≡ some data_text) where
    completed-id : (completed p w user_id req).id ≡ id
    completed-id = keyed id req found

    -- In a keyed store, with a driver that works and texts that round-trip, completing a request
    -- that loads makes it load as done, with the time and the user: if the user exists, their
    -- custom subject or else their id, their acr and their amr, and otherwise the id that was
    -- given and the acr and amr from before; its other fields and every other request load as
    -- before. The time lies before the year 10000 and the request can be marshalled.
    pub load-complete_auth_request :
        (j : String)
        → request_of p (get j (complete_auth_request p id user_id w).1.auth_requests) ≡ (
            if id == j
            then ok (completed p w user_id req)
            else request_of p (get j w.auth_requests))
    load-complete_auth_request j = ground (
      arith,
      complete_auth_request_lem p healthy id user_id w req data_text found m,
      completed-id,
      eq_iff id j,
      get-put id j (request_row p data_text (completed p w user_id req)) w.auth_requests,
      request_of-request_row (completed p w user_id req) data_text m,
    )
