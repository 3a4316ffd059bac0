-- ===== src/Repo/Users.antt =====
-- Users of internal/storage/repo.go.
pub mod Subjects
pub mod Runs
use oidc_test_idp.Prelude.{
  String, ◌==◌, not, Option, none, some, List, [], ◌∷◌, if◌then◌else◌, is_nonzero,
}
use oidc_test_idp.Table
use oidc_test_idp.Table.{Table}
use oidc_test_idp.Models.{User, ConditionalClaimRule}
use oidc_test_idp.Platform.{Platform}
use oidc_test_idp.Db.{
  json_marshal, UserRow, Db, Error, no_rows, not_found, Result, ok, err, M, ◌>>=◌, pure, raise,
  attempt, query, exec, json_strings, json_object, bool_int,
}
use oidc_test_idp.Repo.Clients.{missing_row}

-- The unique index on `username` (migrations/0001_init.sql) refuses a name that another row has.
unfoldable pub put_user : String → UserRow → Db → Option Db
put_user id row d =
    let d' = record d { users = Table.put id row d.users } in
    elim (Table.find (λ r. r.username == row.username) (Table.delete id d.users)) [
      | none ↦ some d'
      | some _ ↦ none
    ]

module _ (p : Platform) where
  unfoldable pub scan_user : String → UserRow → User
  unfolding json_strings json_object
  scan_user id row = record {
    id = id;
    subject = row.subject;
    username = row.username;
    email = row.email;
    email_verified = is_nonzero row.email_verified;
    phone = row.phone;
    phone_verified = is_nonzero row.phone_verified;
    first_name = row.first_name;
    last_name = row.last_name;
    preferred_language = row.preferred_language;
    is_admin = is_nonzero row.is_admin;
    claims = json_object p row.claims;
    conditional_claims = (p.unmarshal_rules row.conditional_claims).0;
    acr = row.acr;
    amr = json_strings p row.amr;
  }

  unfoldable pub get_user : String → M User
  unfolding scan_user
  get_user id = do
    r ← attempt (query p (λ d. Table.get id d.users))
    row ← missing_row r
    pure (scan_user id row)

  unfoldable pub get_user_by_username : String → M User
  unfolding scan_user
  get_user_by_username name = do
    r ← attempt (query p (λ d. Table.find (λ row. row.username == name) d.users))
    found ← missing_row r
    pure (scan_user found.0 found.1)

  -- What follows the search for a custom subject.
  unfoldable pub user_by_subject : String → Result (String × UserRow) → M User
  unfolding scan_user
  user_by_subject sub (ok found) = pure (scan_user found.0 found.1)
  user_by_subject sub (err no_rows) = get_user sub
  user_by_subject sub (err e) = raise e

  unfoldable pub get_user_by_subject : String → M User
  get_user_by_subject sub = if sub == "" then raise not_found else (do
    r ← attempt (query p (λ d. Table.find (λ row. row.subject == sub) d.users))
    user_by_subject sub r)

  unfoldable pub scan_users : Table UserRow → List User
  unfolding scan_user
  scan_users [] = []
  scan_users ((id, row) ∷ t) = scan_user id row ∷ scan_users t

  -- `sorted` is the order that the database gives to the rows for `ORDER BY username`.
  unfoldable pub list_users : (Table UserRow → Table UserRow) → M (List User)
  unfolding scan_users
  list_users sorted = do rows ← query p (λ d. some (sorted d.users)); pure (scan_users rows)

  -- The columns that `SaveUser` writes; an empty list of rules is written as "[]".
  unfoldable pub user_row : User → UserRow
  user_row u = record {
    subject = u.subject;
    username = u.username;
    email = u.email;
    email_verified = bool_int u.email_verified;
    phone = u.phone;
    phone_verified = bool_int u.phone_verified;
    first_name = u.first_name;
    last_name = u.last_name;
    preferred_language = u.preferred_language;
    is_admin = bool_int u.is_admin;
    claims = json_marshal (p.marshal_object u.claims);
    conditional_claims = elim u.conditional_claims [
      | [] ↦ "[]"
      | r ∷ rs ↦ json_marshal (p.marshal_rules (r ∷ rs))
    ];
    acr = u.acr;
    amr = p.marshal_strings u.amr;
  }

  unfoldable pub save_user : User → M Unit
  unfolding user_row put_user
  save_user u = exec p (put_user u.id (user_row u))

  unfoldable pub delete_user : String → M Unit
  delete_user id = exec p (λ d. some (record d { users = Table.delete id d.users }))
