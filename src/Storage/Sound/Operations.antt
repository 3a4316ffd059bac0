-- ===== src/Storage/Sound/Operations.antt =====
-- Soundness under the operations on clients, users, settings and codes.
use oidc_test_idp.Prelude.{String, ◌≡◌, Option, none, some, arith}
use oidc_test_idp.Table.{insert}
use oidc_test_idp.Models.{User, Client}
use oidc_test_idp.Platform.{Platform}
use oidc_test_idp.Db.{Db, Error, Result, ok, err, M, exec}
use oidc_test_idp.Db.Keeps.{Keeps, keeps_rules, Keeps-pure, Keeps-raise, Keeps-exec}
use mathlib.Core.Path.{subst}
use oidc_test_idp.Repo.Clients.{missing_row, get_client, save_client, delete_client}
use oidc_test_idp.Repo.Settings.{set_setting}
use oidc_test_idp.Repo.Users.{get_user, save_user, delete_user, user_row}
use oidc_test_idp.Storage.AuthRequests.{
  missing_request, of_option, load_auth_request, save_auth_code,
}
use oidc_test_idp.Storage.Revocation.{ignore}
use oidc_test_idp.Storage.Sound.{IsSound}
use oidc_test_idp.Storage.Sound.Kept.{
  SameTables, put_user-IsSound, delete_user-IsSound, other_tables-IsSound,
}

module _ (p : Platform) {P : Db → Type 0} where
  pub Keeps-missing_row : {A : Type 0} (r : Result A) → Keeps P (missing_row r)
  Keeps-missing_row (ok a) = Keeps-pure a
  Keeps-missing_row (err e) = record { at = λ w h. ground arith }

  pub Keeps-missing_request : {A : Type 0} (r : Result A) → Keeps P (missing_request r)
  Keeps-missing_request (ok a) = Keeps-pure a
  Keeps-missing_request (err e) = record { at = λ w h. ground arith }

  pub Keeps-of_option : {A : Type 0} (e : Error) (o : Option A) → Keeps P (of_option e o)
  Keeps-of_option e none = Keeps-raise e
  Keeps-of_option e (some a) = Keeps-pure a

  pub Keeps-get_client : (id : String) → Keeps P (get_client p id)
  unfolding get_client
  Keeps-get_client id = search (keeps_rules, Keeps-missing_row)

  pub Keeps-get_user : (id : String) → Keeps P (get_user p id)
  unfolding get_user
  Keeps-get_user id = search (keeps_rules, Keeps-missing_row)

  pub Keeps-load_auth_request : (id : String) → Keeps P (load_auth_request p id)
  unfolding load_auth_request
  Keeps-load_auth_request id = search (keeps_rules, Keeps-missing_request, Keeps-of_option)

-- A change of another table goes through.
pub others_rule :
    (p : Platform) (change : Db → Option Db)
    → ((d q : Db) → change d ≡ some q → SameTables d q)
    → Keeps (IsSound p) (exec p change)
others_rule p change same =
    Keeps-exec p change (λ d q h s. other_tables-IsSound p d q (same d q h) s)

module _ (p : Platform) where
  pub Keeps-ignore : {P : Db → Type 0} → (m : M Unit) → Keeps P m → Keeps P (ignore m)
  Keeps-ignore m km = record { at = λ w h. km.at w h }

  pub save_client-IsSound : (c : Client) → Keeps (IsSound p) (save_client p c)
  unfolding save_client
  save_client-IsSound c = others_rule p _ (λ d q h. record {
    codes = ground arith;
    users = ground arith;
    requests = ground arith;
    keys = ground arith;
  })

  pub delete_client-IsSound : (id : String) → Keeps (IsSound p) (delete_client p id)
  unfolding delete_client
  delete_client-IsSound id = others_rule p _ (λ d q h. record {
    codes = ground arith;
    users = ground arith;
    requests = ground arith;
    keys = ground arith;
  })

  pub set_setting-IsSound : (key value : String) → Keeps (IsSound p) (set_setting p key value)
  unfolding set_setting
  set_setting-IsSound key value = others_rule p _ (λ d q h. record {
    codes = ground arith;
    users = ground arith;
    requests = ground arith;
    keys = ground arith;
  })

  pub save_user-IsSound : (u : User) → Keeps (IsSound p) (save_user p u)
  unfolding save_user
  save_user-IsSound u = Keeps-exec p _ (put_user-IsSound p u.id (user_row p u))

  pub erase_user-IsSound : (id : String) → Keeps (IsSound p) (delete_user p id)
  unfolding delete_user
  erase_user-IsSound id =
      Keeps-exec p _ (λ d q h s. subst (IsSound p) (ground arith) (delete_user-IsSound p id d s))

  pub save_auth_code-IsSound : (id code : String) → Keeps (IsSound p) (save_auth_code p id code)
  unfolding save_auth_code insert
  save_auth_code-IsSound id code = others_rule p _ (λ d q h. record {
    codes = ground arith;
    users = ground arith;
    requests = ground arith;
    keys = ground arith;
  })
