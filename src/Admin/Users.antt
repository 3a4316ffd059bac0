-- ===== src/Admin/Users.antt =====
-- The admin handlers that save and delete users.
pub mod Described
pub mod Saved
use oidc_test_idp.Prelude.{
  String, ◌==◌, Bool, false, not, ◌||◌, Option, none, some, List, [], if◌then◌else◌,
}
use oidc_test_idp.Prelude.Split.{trim_space}
use oidc_test_idp.Json.{Object}
use oidc_test_idp.Platform.{Platform}
use oidc_test_idp.Http.{HttpRequest}
use oidc_test_idp.Models.{User, ConditionalClaimRule}
use oidc_test_idp.Db.{Result, ok, err, M, ◌>>=◌, pure, attempt, new_string}
use oidc_test_idp.Repo.Users
use oidc_test_idp.Admin.{
  Answer, failed, redirected, invalid_claims, invalid_conditional_claims, failed_with,
}
use oidc_test_idp.Admin.Forms.{or_default, split_comma_space}
use oidc_test_idp.Admin.Pages.{Library, users_error}

-- What `json.Unmarshal` left, if it gave no error.
abbrev pub decoded : {A : Type 0} → A × Bool → Option A
decoded r = if r.1 then some r.0 else none

unfoldable pub user_of_form : HttpRequest → String → Object → List ConditionalClaimRule → User
unfolding or_default split_comma_space trim_space
user_of_form r id claims rules = record {
  id = id;
  subject = trim_space (r.form "subject");
  username = r.form "username";
  email = r.form "email";
  email_verified = not (r.form "email_verified" == "");
  phone = r.form "phone";
  phone_verified = false;
  first_name = r.form "first_name";
  last_name = r.form "last_name";
  preferred_language = or_default (r.form "preferred_language") "en";
  is_admin = false;
  claims = claims;
  conditional_claims = rules;
  acr = trim_space (r.form "acr");
  amr = split_comma_space (r.form "amr");
}

module _ (p : Platform) (library : Library) where
  -- The claims of the form: none where they are no JSON object.
  unfoldable pub claims_of : String → Option Object
  unfolding trim_space
  claims_of text =
      if trim_space text == "" then some [] else decoded (p.unmarshal_object (trim_space text))

  unfoldable pub rules_of : String → Option (List ConditionalClaimRule)
  unfolding trim_space
  rules_of text =
      if trim_space text == "" || trim_space text == "[]"
      then some []
      else decoded (p.unmarshal_rules (trim_space text))

  unfoldable pub id_of : HttpRequest → M String
  id_of r = if r.form "id" == "" then new_string p else pure (r.form "id")

  abbrev pub user_saved : Result (Unit {0}) → M Answer
  user_saved (ok _) = pure (redirected "/admin/users")
  user_saved (err e) = users_error p library (failed_with e)

  unfoldable pub store_user : HttpRequest → Object → List ConditionalClaimRule → M Answer
  unfolding user_of_form id_of users_error
  store_user r claims rules = do
    id ← id_of r
    saved ← attempt (Users.save_user p (user_of_form r id claims rules))
    user_saved saved

  abbrev pub checked_rules : HttpRequest → Object → Option (List ConditionalClaimRule) → M Answer
  checked_rules r claims none = users_error p library invalid_conditional_claims
  checked_rules r claims (some rules) = store_user r claims rules

  abbrev pub checked_claims : HttpRequest → Option Object → M Answer
  checked_claims r none = users_error p library invalid_claims
  checked_claims r (some claims) = checked_rules r claims (rules_of (r.form "conditional_claims"))

  unfoldable pub save_user : HttpRequest → M Answer
  unfolding claims_of rules_of
  save_user r =
      if r.parses then checked_claims r (claims_of (r.form "claims")) else pure (failed 400)

  -- `id` is the one of the path; the error is dropped.
  unfoldable pub delete_user : String → M Answer
  delete_user id = do _ ← attempt (Users.delete_user p id); pure (redirected "/admin/users")
