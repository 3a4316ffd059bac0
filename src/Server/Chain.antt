-- ===== src/Server/Chain.antt =====
-- What the chain of middlewares lets through.
use oidc_test_idp.Prelude.{
  ℕ, ◌==◌, eq_iff, ◌≡◌, ◌≢◌, refl, true, false, some, arith, ℤ, inl, inr, Bool-cases,
}
use oidc_test_idp.Table.{get}
use oidc_test_idp.Prelude.Text.{has_suffix}
use oidc_test_idp.Http.{HttpRequest}
use oidc_test_idp.Platform.{Platform, Healthy}
use oidc_test_idp.Db.{ClientRow, World, ok}
use oidc_test_idp.Discovery.{discovery_path, discovery_override}
use oidc_test_idp.Behavior.{
  Action, next, redirect, oauth_error, is_authorize_endpoint, is_token_endpoint,
  is_protocol_endpoint, client_id_from_request, behave, redirect_authorize_error,
}
use oidc_test_idp.Behavior
use oidc_test_idp.Behavior.Forced.{middleware-IsDecided}
use oidc_test_idp.Reqlog.{Log}
use oidc_test_idp.Server.{
  Backend, behavior_layer, discovery_layer, protocol, userinfo_challenge, logged,
}

module _ (p : Platform) (healthy : Healthy p) {Body : Type 0} (backend : Backend Body)
    (r : HttpRequest) (w : World) where
  -- A decision other than to hand the request on is written, and nothing below is run.
  behavior_layer-action :
      (d : ℤ × Action)
      → (Behavior.middleware backend.parse_url p r w).0 ≡ ok d
      → d.1 ≢ next
      → behavior_layer p backend r w
        ≡ (ok (backend.write_action r d.1), (Behavior.middleware backend.parse_url p r w).1)
  unfolding behavior_layer
  behavior_layer-action (d, next) h other = absurd (other refl)
  behavior_layer-action (d, redirect u) h other = ground arith
  behavior_layer-action (d, oauth_error s) h other = ground arith

  module _ (row : ClientRow) (endpoint : is_protocol_endpoint r.path ≡ true)
      (named : client_id_from_request r ≢ "")
      (known : get (client_id_from_request r) w.clients ≡ some row)
      (forced : row.force_error ≢ "") where
    elsewhere : (r.path == discovery_path) ≡ false
    unfolding is_protocol_endpoint is_authorize_endpoint is_token_endpoint has_suffix
    elsewhere = elim (Bool-cases (r.path == discovery_path)) [
      | inr away ↦ away
      | inl here ↦
          let away : is_protocol_endpoint discovery_path ≡ false = refl in
          cc (away, endpoint, (eq_iff r.path discovery_path).0 here)
    ]

    -- While the driver works, a request at a protocol endpoint that names a stored client with a
    -- forced error never gets past the behaviour middleware: the whole chain answers with an
    -- action that is not to go on, logs what it sends, and leaves the database unchanged.
    pub protocol-forced :
        (log : Log) (start duration : ℕ)
        → (a : Action) × (a ≢ next)
          × ((protocol p backend log start duration r w).0
              ≡ ok (
                logged p backend log r start duration
                    (some (userinfo_challenge r (backend.write_action r a))),
                some (userinfo_challenge r (backend.write_action r a)),
              ))
          × ((protocol p backend log start duration r w).1.db ≡ w.db)
    unfolding protocol discovery_layer discovery_override
    protocol-forced log start duration =
        let decided = middleware-IsDecided backend.parse_url p healthy r w in
        let other : decided.answer.1 ≢ next =
          λ e. forced (decided.passes.0 e endpoint named row known) in
        let layer = behavior_layer-action decided.answer decided.succeeds other in
        (
          decided.answer.1,
          other,
          ground (arith, elsewhere, layer),
          ground (arith, elsewhere, layer, decided.unchanged),
        )
