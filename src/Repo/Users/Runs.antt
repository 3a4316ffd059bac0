-- ===== src/Repo/Users/Runs.antt =====
-- What the actions on users come to while the driver works.
use oidc_test_idp.Prelude.{String, ◌≡◌, Option, none, some, arith, ◌==◌, if◌then◌else◌}
use oidc_test_idp.Table.{get, find}
use oidc_test_idp.Models.{User}
use oidc_test_idp.Platform.{Platform, Healthy}
use oidc_test_idp.Db.{UserRow, World, not_found, Result, ok, err}
use oidc_test_idp.Db.Statements.{counted_on, query_lem}
use oidc_test_idp.Repo.Users.{scan_user, get_user, user_by_subject, get_user_by_subject}

abbrev pub user_of : Platform → String → Option UserRow → Result User
user_of p id none = err not_found
user_of p id (some row) = ok (scan_user p id row)

-- The user whom a token's subject names: by custom subject, or else by id.
abbrev pub owner_of : Platform → String → Option (String × UserRow) → Option UserRow → Result User
owner_of p sub (some (id, row)) other = ok (scan_user p id row)
owner_of p sub none other = user_of p sub other

module _ (p : Platform) (healthy : Healthy p) where
  pub get_user_lem :
      (id : String) (w : World) → get_user p id w ≡ (user_of p id (get id w.users), counted_on w)
  unfolding get_user
  get_user_lem id w = ground (arith, query_lem p healthy (λ d. get id d.users) w)

  -- The result; the number of statements depends on the branch.
  pub get_user_by_subject-eq-owner_of :
      (sub : String) (w : World)
      → (get_user_by_subject p sub w).0 ≡ (
          if sub == ""
          then err not_found
          else owner_of p sub (find (λ row. row.subject == sub) w.users) (get sub w.users))
  unfolding get_user_by_subject user_by_subject
  get_user_by_subject-eq-owner_of sub w = ground (
    arith,
    query_lem p healthy (λ d. find (λ row. row.subject == sub) d.users) w,
    get_user_lem sub (counted_on w),
  )

  pub get_user_by_subject-db :
      (sub : String) (w : World) → (get_user_by_subject p sub w).1.db ≡ w.db
  unfolding get_user_by_subject user_by_subject
  get_user_by_subject-db sub w = ground (
    arith,
    query_lem p healthy (λ d. find (λ row. row.subject == sub) d.users) w,
    get_user_lem sub (counted_on w),
  )
