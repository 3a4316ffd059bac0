-- ===== src/Repo/Clients/Runs.antt =====
-- What the actions on clients come to while the driver works.
use oidc_test_idp.Prelude.{String, ◌≡◌, Option, none, some, arith}
use oidc_test_idp.Table.{get}
use oidc_test_idp.Models.{Client}
use oidc_test_idp.Platform.{Platform, Healthy}
use oidc_test_idp.Db.{ClientRow, World, not_found, Result, ok, err}
use oidc_test_idp.Db.Statements.{counted_on, query_lem}
use oidc_test_idp.Repo.Clients.{scan_client, get_client}

abbrev pub client_of : Platform → String → Option ClientRow → Result Client
client_of p id none = err not_found
client_of p id (some row) = ok (scan_client p id row)

module _ (p : Platform) (healthy : Healthy p) where
  pub get_client_lem :
      (id : String) (w : World)
      → get_client p id w ≡ (client_of p id (get id w.clients), counted_on w)
  unfolding get_client
  get_client_lem id w = ground (arith, query_lem p healthy (λ d. get id d.clients) w)
