-- ===== src/Ropc/Exchange.antt =====
-- When the password grant issues tokens.
use oidc_test_idp.Prelude.{
  String, ◌==◌, eq_iff, ◌≡◌, ◌≢◌, ◌⊎◌, true, none, some, arith, inl, inr, Option-cases, Bool-cases,
}
use oidc_test_idp.Table.{get, find}
use oidc_test_idp.Http.{HttpRequest}
use oidc_test_idp.Models.{OpClient, AuthRequest}
use oidc_test_idp.Platform.{Platform, Healthy}
use oidc_test_idp.Db.{ClientRow, UserRow, World, not_found, ok, err, M}
use oidc_test_idp.Db.Statements.{counted_on, query_lem}
use oidc_test_idp.Repo.Clients.{scan_client}
use oidc_test_idp.Repo.Clients.Runs.{get_client_lem}
use oidc_test_idp.Repo.Users.{get_user_by_username}
use oidc_test_idp.Ropc.{
  tokens, client_credentials_of, has_grant_type, with_user, with_found, ropc_exchange,
}

-- The client of the request's credentials is stored, its secret is not set or is the one given, the
-- password grant is allowed to it, and the user of the request's username is found.
pub record IsGranted (p : Platform) (r : HttpRequest) (w : World) : Type 0 where
  pub row : ClientRow
  pub known : get (client_credentials_of r).0 w.clients ≡ some row
  pub named : (client_credentials_of r).0 ≢ ""
  pub secret : (row.secret ≡ "") ⊎ (row.secret ≡ (client_credentials_of r).1)
  pub allowed : has_grant_type (scan_client p (client_credentials_of r).0 row) "password" ≡ true
  pub username : r.post_form "username" ≢ ""
  pub user : String × UserRow
  pub user_known : find (λ u. u.username == r.post_form "username") w.users ≡ some user

module _ (p : Platform) (healthy : Healthy p) {Body : Type 0}
    (create_token_response : AuthRequest → OpClient → M Body) (r : HttpRequest) (w : World) where
  get_user_by_username_unknown :
      (name : String) (v : World)
      → find (λ u. u.username == name) v.users ≡ none
      → get_user_by_username p name v ≡ (err not_found, counted_on v)
  unfolding get_user_by_username
  get_user_by_username_unknown name v h =
      ground (arith, query_lem p healthy (λ d. find (λ u. u.username == name) d.users) v)

  module _ (row : ClientRow) (known : get (client_credentials_of r).0 w.clients ≡ some row)
      (named : (client_credentials_of r).0 ≢ "") where
    exchange_known :
        ropc_exchange p create_token_response r w
        ≡ with_found p create_token_response r
            (client_credentials_of r).0
            (client_credentials_of r).1
            (ok (scan_client p (client_credentials_of r).0 row))
            (counted_on w)
    unfolding ropc_exchange
    exchange_known = ground (
      arith,
      eq_iff (client_credentials_of r).0 "",
      get_client_lem p healthy (client_credentials_of r).0 w,
    )

    -- Past the guards, the user's name decides.
    granted :
        (body : Body)
        → (ropc_exchange p create_token_response r w).0 ≡ ok (tokens body)
        → IsGranted p r w
    unfolding with_found with_user scan_client
    granted body h = record {
      row = row;
      known = known;
      named = named;
      secret = elim (Bool-cases (row.secret == "")) [
        | inl e ↦ inl ((eq_iff _ _).0 e)
        | inr e ↦ inr (
            ground (
              arith,
              exchange_known,
              eq_iff row.secret "",
              eq_iff row.secret (client_credentials_of r).1,
            ))
      ];
      allowed = ground (arith, exchange_known);
      username = λ e. ground (arith, exchange_known, eq_iff (r.post_form "username") "");
      user = (found_user body h).0;
      user_known = (found_user body h).1;
    }
      where
        found_user :
            (body : Body)
            → (ropc_exchange p create_token_response r w).0 ≡ ok (tokens body)
            → (u : String × UserRow) × (find (λ u. u.username == r.post_form "username") w.users
                ≡ some u)
        found_user body h =
            elim (Option-cases
              (find (λ (u : UserRow). u.username == r.post_form "username") w.users)) [
                | inr (u, e) ↦ (u, e)
                | inl e ↦ ground (
                  arith,
                  exchange_known,
                  get_user_by_username_unknown (r.post_form "username") (counted_on w) e,
                )
              ]

  -- While the driver works, the password grant answers with tokens only when its client is stored,
  -- gave its secret unless it has none, may use the grant, and a stored user has the username of
  -- the request.
  pub ropc_exchange-IsGranted :
      (body : Body)
      → (ropc_exchange p create_token_response r w).0 ≡ ok (tokens body)
      → IsGranted p r w
  unfolding ropc_exchange with_found
  ropc_exchange-IsGranted body h = elim (Bool-cases ((client_credentials_of r).0 == "")) [
    | inl bare ↦ ground (arith)
    | inr other ↦ elim (Option-cases (get (client_credentials_of r).0 w.clients)) [
      | inl unknown ↦ ground (arith, get_client_lem p healthy (client_credentials_of r).0 w)
      | inr (row, known) ↦
          granted row known (ground (arith, eq_iff (client_credentials_of r).0 "")) body h
    ]
  ]
