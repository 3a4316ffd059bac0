-- ===== src/Admin/Users/Saved.antt =====
-- What a saved user form leaves in the store.

use oidc_test_idp.Table.{put, find, delete}
use oidc_test_idp.Prelude.{Option, if◌then◌else◌, String, ◌==◌, ◌≡◌, List, Bool, true, false}
use oidc_test_idp.Json.{Object}
use oidc_test_idp.Platform.{Platform, Healthy}
use oidc_test_idp.Http.{HttpRequest}
use oidc_test_idp.Models.{User, ConditionalClaimRule}
use oidc_test_idp.Db.{UserRow, Db, World, Result, ok}
use oidc_test_idp.Db.Keeps.{Keeps}
use oidc_test_idp.Repo.Users
use oidc_test_idp.Repo.Users.{user_row}
use oidc_test_idp.Admin.{Answer, redirected}
use oidc_test_idp.Admin.Pages.{Library}
use oidc_test_idp.Admin.Users.{user_of_form}
use oidc_test_idp.Admin.Users.Described.{IsFree, IsTaken, ReadsClaims, ReadsRules, IsUserOf}

-- Whether the answer is a redirect.
abbrev pub is_redirect : Result Answer → Bool
is_redirect (ok (redirected _)) = true
is_redirect _ = false

module _ (p : Platform) (library : Library) where
  -- The id under which the form is stored.
  abbrev pub form_id : HttpRequest → World → String
  form_id r w = if r.form "id" == "" then p.uuid w.ids else r.form "id"

  -- The form is refused, and nothing is changed.
  abbrev pub IsRefused : World → Result Answer × World → Type 0
  IsRefused w q = (is_redirect q.0 ≡ false) × (q.1.db ≡ w.db)

  -- What becomes of a form, by its texts and by the names that the rows have.
  pub record IsDecided (r : HttpRequest) (w : World) (q : Result Answer × World) : Type 0 where
    pub stored :
        (claims : Object) (rules : List ConditionalClaimRule)
        → r.parses ≡ true
        → ReadsClaims p (r.form "claims") claims
        → ReadsRules p (r.form "conditional_claims") rules
        → IsFree (form_id r w) (r.form "username") w.users
        → (u : User) × IsUserOf r (form_id r w) claims rules u
          × (is_redirect q.0 ≡ true)
          × (q.1.db ≡ record w.db { users = put u.id (user_row p u) w.users })
    pub unparsed : r.parses ≡ false → IsRefused w q
    pub bad_claims : ((claims : Object) → ¬ ReadsClaims p (r.form "claims") claims) → IsRefused w q
    pub bad_rules :
        ((rules : List ConditionalClaimRule) → ¬ ReadsRules p (r.form "conditional_claims") rules)
        → IsRefused w q
    pub taken : IsTaken (form_id r w) (r.form "username") w.users → IsRefused w q

  module _ (healthy : Healthy p) (r : HttpRequest) (w : World) where
    abbrev name_found : Option (String × UserRow)
    name_found =
        find (λ (u : UserRow). u.username == r.form "username") (delete (form_id r w) w.users)

    module _ (claims : Object) (rules : List ConditionalClaimRule) where
      abbrev user : User
      user = user_of_form r (form_id r w) claims rules
