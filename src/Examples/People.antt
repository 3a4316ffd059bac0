-- ===== src/Examples/People.antt =====
-- Examples for clients, users and claims.
use oidc_test_idp.Prelude.{ℕ, ◌≡◌, refl, none, [], arith, ◌*◌, ◌≤◌, ◌↔◌, pos}
use oidc_test_idp.Table.{get}
use oidc_test_idp.Models.{second, subject_or_id}
use oidc_test_idp.Platform.{SameObject}
use oidc_test_idp.Db.{ok}
use oidc_test_idp.Repo.Clients.{get_client, save_client}
use oidc_test_idp.Repo.Clients.RoundTrip.{IsWhole, stored, get_client-save_client}
use oidc_test_idp.Repo.Users.{scan_user, user_row, get_user_by_subject}
use oidc_test_idp.Repo.Users.Subjects.{get_user_by_subject-subject_or_id}
use oidc_test_idp.Storage.Claims.Active.{IsActive, introspection-IsActive}
use oidc_test_idp.Storage.Claims.{Introspection, set_introspection_from_token}
use oidc_test_idp.Sample.{sample, sample-Healthy, sample-RoundTrips}
use oidc_test_idp.Examples.Fixtures.{differ, shop, alice_row, session}

whole : (n : ℕ) → n ≤ 9223372036 → IsWhole (pos (n * second))
whole n h = (n, refl, h)

get_client-save_client_example :
    ((get_client sample "shop" (save_client sample shop session).1).0
      ≡ ok (stored sample sample-RoundTrips shop))
    × SameObject (stored sample sample-RoundTrips shop).custom_claims shop.custom_claims
get_client-save_client_example =
    get_client-save_client sample sample-RoundTrips sample-Healthy shop "shop" _ session refl
      (whole 0 (omega arith)) (whole 600 (omega arith)) (whole 3600 (omega arith))
      (whole 0 (omega arith))

get_user_by_subject-subject_or_id_example :
    (get_user_by_subject sample (subject_or_id (scan_user sample "alice" alice_row)) session).0
    ≡ ok (scan_user sample "alice" alice_row)
unfolding get user_row
get_user_by_subject-subject_or_id_example =
    get_user_by_subject-subject_or_id sample sample-Healthy "alice" alice_row session refl
      (differ "alice" "" refl) ((λ e. (refl, refl)), tt)

abbrev unanswered : Introspection
unanswered = record { expiration = 0; user_info = none; scope = []; client_id = "" }

introspection-IsActive_example :
    ((a : Introspection) × ((set_introspection_from_token sample "t0" "alice" "shop" unanswered
          session).0
        ≡ ok (a, none)))
    ↔ IsActive sample sample-Healthy "t0" "alice" "shop" unanswered session
introspection-IsActive_example =
    introspection-IsActive sample sample-Healthy "t0" "alice" "shop" unanswered session
