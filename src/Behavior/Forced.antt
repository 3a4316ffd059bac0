-- ===== src/Behavior/Forced.antt =====
-- Which requests the behaviour middleware lets through, and what a forced error looks like.
use oidc_test_idp.Prelude.{
  String, ◌==◌, eq_iff, ◌≡◌, ◌≢◌, ◌↔◌, ◌∙◌, ap, is_positive, refl, true, Option, none, some, List,
  [], ◌∷◌, arith, inl, inr, Option-cases, Bool-cases, if◌then◌else◌, ℤ, pos,
}
use oidc_test_idp.Table.{Table, get, put, get-put}
use oidc_test_idp.Http.{HttpRequest}
use oidc_test_idp.Models.{Client}
use oidc_test_idp.Platform.{Platform, Healthy}
use oidc_test_idp.Db.{ClientRow, World, Result, ok}
use oidc_test_idp.Db.Statements.{counted_on}
use oidc_test_idp.Repo.Clients.{scan_client}
use oidc_test_idp.Repo.Clients.Runs.{get_client_lem}
use oidc_test_idp.Behavior.{
  is_authorize_endpoint, is_protocol_endpoint, client_id_from_request, Url, Action, next, set_state,
  redirect, description, redirect_authorize_error, behave, middleware,
}

get-set_state :
    (k state : String) (t : Table (List String))
    → get k (set_state state t)
      ≡ (if state == "" then get k t else (if "state" == k then some (state ∷ []) else get k t))
get-set_state k state t = ground (arith, get-put "state" k (state ∷ []) t)

get_described :
    (k code : String) (t : Table (List String))
    → get k (put "error_description" (description ∷ []) (put "error" (code ∷ []) t)) ≡ (
        if "error_description" == k
        then some (description ∷ [])
        else (if "error" == k then some (code ∷ []) else get k t))
get_described k code t = rw (get-put, get-put)

module _ (parse_url : String → Option Url) (p : Platform) (healthy : Healthy p) (r : HttpRequest)
    (w : World) where
  middleware_found :
      (row : ClientRow)
      → is_protocol_endpoint r.path ≡ true
      → client_id_from_request r ≢ ""
      → get (client_id_from_request r) w.clients ≡ some row
      → middleware parse_url p r w
        ≡ (ok (behave parse_url r (scan_client p (client_id_from_request r) row)), counted_on w)
  unfolding middleware
  middleware_found row proto named known = ground (
    arith,
    eq_iff (client_id_from_request r) "",
    get_client_lem p healthy (client_id_from_request r) w,
  )

  -- Nothing is forced on the request: it is for no protocol endpoint, or names no client, or its
  -- client is unknown or has no forced error.
  abbrev pub Passes : Type 0
  Passes =
      is_protocol_endpoint r.path ≡ true
      → client_id_from_request r ≢ ""
      → (row : ClientRow) → get (client_id_from_request r) w.clients ≡ some row
      → row.force_error ≡ ""

  -- What a run of the middleware shows: it answers with a delay and an action, without a failure
  -- and without a write, and it hands the request on exactly when nothing is forced.
  pub record IsDecided (result : Result (ℤ × Action) × World) : Type 0 where
    pub answer : ℤ × Action
    pub succeeds : result.0 ≡ ok answer
    pub unchanged : result.1.db ≡ w.db
    pub passes : (answer.1 ≡ next) ↔ Passes

  scan_error :
      (row : ClientRow)
      → row.force_error ≡ ""
      → (scan_client p (client_id_from_request r) row).force_error ≡ ""
  unfolding scan_client
  scan_error row h = h

  scan_error_back :
      (row : ClientRow)
      → (scan_client p (client_id_from_request r) row).force_error ≡ ""
      → row.force_error ≡ ""
  unfolding scan_client
  scan_error_back row h = h

  redirect-ne-next : (code : String) → redirect_authorize_error parse_url r code ≢ next
  unfolding redirect_authorize_error
  redirect-ne-next code h = ground arith

  behave-next : (c : Client) → ((behave parse_url r c).1 ≡ next) ↔ (c.force_error ≡ "")
  unfolding behave
  behave-next c = (
    λ h. ground (arith, eq_iff c.force_error "", redirect-ne-next c.force_error),
    λ h. ground (arith, eq_iff c.force_error ""),
  )

  middleware_quiet :
      (is_protocol_endpoint r.path ≡ true
        → client_id_from_request r ≢ ""
        → get (client_id_from_request r) w.clients ≡ none)
      → ((middleware parse_url p r w).0 ≡ ok (pos 0, next))
        × ((middleware parse_url p r w).1.db ≡ w.db)
  unfolding middleware
  middleware_quiet h = ground (
    arith,
    eq_iff (client_id_from_request r) "",
    get_client_lem p healthy (client_id_from_request r) w,
    h,
  )

  passed :
      (is_protocol_endpoint r.path ≡ true
        → client_id_from_request r ≢ ""
        → get (client_id_from_request r) w.clients ≡ none)
      → IsDecided (middleware parse_url p r w)
  passed h = record {
    answer = (pos 0, next);
    succeeds = (middleware_quiet h).0;
    unchanged = (middleware_quiet h).1;
    passes = (λ e proto named row known. ground (arith, h proto named), λ e. refl);
  }

  -- While the driver works, the behaviour middleware never fails and never writes to the database,
  -- and it hands a request on exactly when nothing is forced on it: the request is for no protocol
  -- endpoint, or names no client, or its client is unknown or has no forced error.
  pub middleware-IsDecided : IsDecided (middleware parse_url p r w)
  middleware-IsDecided = elim (Bool-cases (is_protocol_endpoint r.path)) [
    | inr away ↦ passed (λ proto. ground arith)
    | inl proto ↦ elim (Bool-cases (client_id_from_request r == "")) [
      | inl bare ↦ passed (λ q named. ground (arith, eq_iff (client_id_from_request r) ""))
      | inr other ↦ elim (Option-cases (get (client_id_from_request r) w.clients)) [
        | inl unknown ↦ passed (λ q named. unknown)
        | inr (row, known) ↦
            let named : client_id_from_request r ≢ "" =
              ground (arith, eq_iff (client_id_from_request r) "") in
            rw (middleware_found row proto named known) (record {
              answer = behave parse_url r (scan_client p (client_id_from_request r) row);
              succeeds = refl;
              unchanged = refl;
              passes = (
                λ e q n row' known'.
                    let here =
                      scan_error_back row
                        ((behave-next (scan_client p (client_id_from_request r) row)).0 e) in
                    ground arith,
                λ h.
                    (behave-next (scan_client p (client_id_from_request r) row)).1
                      (scan_error row (h proto named row known)),
              );
            })
      ]
    ]
  ]

  -- A forced error on an authorization request whose redirect URI parses: the redirect goes to that
  -- URI with the error and the request's state, if it has one, among its query values, and every
  -- value under another key than these and the description as it was.
  pub record IsErrorRedirect (code : String) (u : Url) (a : Action) : Type 0 where
    pub target : Url
    pub redirects : a ≡ redirect target
    pub same_rest : target.rest ≡ u.rest
    pub error : get "error" target.values ≡ some (code ∷ [])
    pub state : r.query "state" ≢ "" → get "state" target.values ≡ some (r.query "state" ∷ [])
    pub others :
        (k : String)
        → k ≢ "error"
        → k ≢ "error_description"
        → k ≢ "state"
        → get k target.values ≡ get k u.values

  redirected : String → Url → Url
  redirected code u = record u {
    values =
        set_state (r.query "state")
          (put "error_description" (description ∷ []) (put "error" (code ∷ []) u.values));
  }

  redirected-IsErrorRedirect :
      (code : String) (u : Url)
      → r.query "redirect_uri" ≢ ""
      → parse_url (r.query "redirect_uri") ≡ some u
      → IsErrorRedirect code u (redirect_authorize_error parse_url r code)
  unfolding redirect_authorize_error redirected
  redirected-IsErrorRedirect code u named parsed = record {
    target = redirected code u;
    redirects = ground (arith, eq_iff (r.query "redirect_uri") "");
    same_rest = refl;
    error =
        (ground (
          arith,
          eq_iff (r.query "state") "",
          get-set_state "error" (r.query "state")
              (put "error_description" (description ∷ []) (put "error" (code ∷ []) u.values)),
          get_described "error" code u.values,
        ));
    state = λ h. ground (
      arith,
      eq_iff (r.query "state") "",
      get-set_state "state" (r.query "state")
          (put "error_description" (description ∷ []) (put "error" (code ∷ []) u.values)),
    );
    others = λ k h h' h''. ground (
      arith,
      eq_iff (r.query "state") "",
      get-set_state k (r.query "state")
          (put "error_description" (description ∷ []) (put "error" (code ∷ []) u.values)),
      get_described k code u.values,
      eq_iff "error" k,
      eq_iff "error_description" k,
      eq_iff "state" k,
    );
  }

  -- While the driver works, at an authorization endpoint a request that names a stored client with
  -- a forced error, and whose redirect URI parses, is redirected there with that error and the
  -- state of the request, if it has one; query values under other keys than these and the
  -- description stay.
  pub middleware-IsErrorRedirect :
      (row : ClientRow) (u : Url)
      → is_authorize_endpoint r.path ≡ true
      → client_id_from_request r ≢ ""
      → get (client_id_from_request r) w.clients ≡ some row
      → row.force_error ≢ ""
      → r.query "redirect_uri" ≢ ""
      → parse_url (r.query "redirect_uri") ≡ some u
      → (d : ℤ) × (a : Action) × ((middleware parse_url p r w).0 ≡ ok (d, a))
        × IsErrorRedirect row.force_error u a
  unfolding behave is_protocol_endpoint scan_client
  middleware-IsErrorRedirect row u authorize named known forced redirect_uri parsed =
      let found = middleware_found row (ground arith) named known in
      (
        if is_positive row.latency_ms then row.latency_ms else pos 0,
        redirect_authorize_error parse_url r row.force_error,
        ap (λ (q : Result (ℤ × Action) × World). q.0) found
            ∙ ground (arith, eq_iff row.force_error ""),
        redirected-IsErrorRedirect row.force_error u redirect_uri parsed,
      )
