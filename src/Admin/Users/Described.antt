-- ===== src/Admin/Users/Described.antt =====
-- What a user form says: the texts of its claims and rules, its user, and whose name it takes.
use mathlib.Core.List.{Memᴰ}
use mathlib.Core.List.Memᴰ
use oidc_test_idp.Table.{Table, find, delete}
use oidc_test_idp.Prelude.{
  ap, none, ◌∷◌, String, ◌==◌, ◌≢◌, [], eq-false_of_ne, eq_iff, ◌≡◌, refl, sym, ◌∙◌, some, List,
  arith, ◌⊎◌, inl, inr, Bool-cases, Bool, true, false,
}
use oidc_test_idp.Prelude.Split.{trim_space}
use oidc_test_idp.Prelude.Text.{fields_by}
use oidc_test_idp.Admin.Forms.{or_default, split_comma_space, is_comma_space}
use oidc_test_idp.Json.{Object}
use oidc_test_idp.Platform.{Platform}
use oidc_test_idp.Http.{HttpRequest}
use oidc_test_idp.Models.{User, ConditionalClaimRule}
use oidc_test_idp.Db.{UserRow}
use oidc_test_idp.Admin.Pages.{Library}
use oidc_test_idp.Admin.Users.{decoded, user_of_form, claims_of, rules_of}

-- The claims that a text stands for: none for a blank one, else those of the JSON object it is.
abbrev pub ReadsClaims : Platform → String → Object → Type 0
ReadsClaims p text claims =
    ((trim_space text ≡ "") × (claims ≡ []))
    ⊎ ((trim_space text ≢ "") × (p.unmarshal_object (trim_space text) ≡ (claims, true)))

abbrev pub ReadsRules : Platform → String → List ConditionalClaimRule → Type 0
ReadsRules p text rules =
    (((trim_space text ≡ "") ⊎ (trim_space text ≡ "[]")) × (rules ≡ []))
    ⊎ ((trim_space text ≢ "")
        × (trim_space text ≢ "[]")
        × (p.unmarshal_rules (trim_space text) ≡ (rules, true)))

-- A box of the form is ticked.
abbrev pub IsTicked : HttpRequest → String → Bool → Type 0
IsTicked r box b = (r.form box ≡ "" → b ≡ false) × (r.form box ≢ "" → b ≡ true)

-- The user whom a form describes.
pub record IsUserOf (r : HttpRequest) (id : String) (claims : Object)
    (rules : List ConditionalClaimRule) (u : User) : Type 0 where
  pub same_id : u.id ≡ id
  pub same_subject : u.subject ≡ trim_space (r.form "subject")
  pub same_username : u.username ≡ r.form "username"
  pub same_email : u.email ≡ r.form "email"
  pub same_email_verified : IsTicked r "email_verified" u.email_verified
  pub same_phone : u.phone ≡ r.form "phone"
  pub same_phone_verified : u.phone_verified ≡ false
  pub same_first_name : u.first_name ≡ r.form "first_name"
  pub same_last_name : u.last_name ≡ r.form "last_name"
  pub no_language : trim_space (r.form "preferred_language") ≡ "" → u.preferred_language ≡ "en"
  pub same_language :
      trim_space (r.form "preferred_language") ≢ ""
      → u.preferred_language ≡ r.form "preferred_language"
  pub same_is_admin : u.is_admin ≡ false
  pub same_claims : u.claims ≡ claims
  pub same_rules : u.conditional_claims ≡ rules
  pub same_acr : u.acr ≡ trim_space (r.form "acr")
  pub same_amr : u.amr ≡ fields_by is_comma_space "" (r.form "amr")

pub user_of_form-IsUserOf :
    (r : HttpRequest) (id : String) (claims : Object) (rules : List ConditionalClaimRule)
    → IsUserOf r id claims rules (user_of_form r id claims rules)
unfolding user_of_form or_default split_comma_space
user_of_form-IsUserOf r id claims rules = record {
  same_id = refl;
  same_subject = refl;
  same_username = refl;
  same_email = refl;
  same_email_verified = (λ e. rw e refl, λ n. rw (eq-false_of_ne _ _ n) refl);
  same_phone = refl;
  same_phone_verified = refl;
  same_first_name = refl;
  same_last_name = refl;
  no_language = λ e. rw e refl;
  same_language = λ n. rw (eq-false_of_ne _ _ n) refl;
  same_is_admin = refl;
  same_claims = refl;
  same_rules = refl;
  same_acr = refl;
  same_amr = refl;
}

decoded-pair : {A : Type 0} → (r : A × Bool) (a : A) → decoded r ≡ some a → r ≡ (a, true)
decoded-pair (x, true) a h = let e : x ≡ a = ground arith in ap (λ y. (y, true)) e
decoded-pair (x, false) a h = ground arith

-- No other row has the name, or one has.
abbrev pub IsFree : String → String → Table UserRow → Type 0
IsFree id name t = (j : String) (row : UserRow) → Memᴰ (j, row) t → row.username ≡ name → j ≡ id

abbrev pub IsTaken : String → String → Table UserRow → Type 0
IsTaken id name t =
    (j : String) × (row : UserRow) × Memᴰ (j, row) t × (row.username ≡ name) × (j ≢ id)

pub find-free :
    (id name : String) (t : Table UserRow)
    → IsFree id name t
    → find (λ (r : UserRow). r.username == name) (delete id t) ≡ none
unfolding find delete
find-free id name [] free = refl
find-free id name ((j, row) ∷ t) free = ground (
  arith,
  eq_iff j id,
  eq_iff row.username name,
  free j row (Memᴰ.head refl),
  find-free id name t (λ k r m. free k r (Memᴰ.tail m)),
)

pub find-taken :
    (id name j : String) (row : UserRow) (t : Table UserRow)
    → Memᴰ (j, row) t
    → row.username ≡ name
    → j ≢ id
    → find (λ (r : UserRow). r.username == name) (delete id t) ≢ none
unfolding find delete
find-taken id name j row [] m e n h = elim m [ ]
find-taken id name j row ((k, r) ∷ t) m e n h = elim (Memᴰ.cases_cons m) [
  | inl same ↦
      let named : r.username ≡ name = ap (λ (x : String × UserRow). x.1.username) (sym same) ∙ e in
      let other : k ≢ id = λ f. n (ap (λ (x : String × UserRow). x.0) same ∙ f) in
      ground (arith, eq_iff k id, eq_iff r.username name)
  | inr later ↦
      find-taken id name j row t later e n (ground (arith, eq_iff k id, eq_iff r.username name))
]

module _ (p : Platform) (library : Library) where
  pub claims_of-reads :
      (text : String) (claims : Object)
      → ReadsClaims p text claims
      → claims_of p library text ≡ some claims
  unfolding claims_of
  claims_of-reads text claims (inl (e, n)) = rw (e, n) refl
  claims_of-reads text claims (inr (n, e)) = rw (eq-false_of_ne _ _ n, e) refl

  pub reads-claims_of :
      (text : String) (claims : Object)
      → claims_of p library text ≡ some claims
      → ReadsClaims p text claims
  unfolding claims_of
  reads-claims_of text claims h = elim (Bool-cases (trim_space text == "")) [
    | inl e ↦ inl (ground (arith, eq_iff (trim_space text) ""), ground arith)
    | inr e ↦ inr (
      λ g. ground (arith, eq_iff (trim_space text) ""),
      decoded-pair (p.unmarshal_object (trim_space text)) claims (ground arith),
    )
  ]

  pub rules_of-reads :
      (text : String) (rules : List ConditionalClaimRule)
      → ReadsRules p text rules
      → rules_of p library text ≡ some rules
  unfolding rules_of
  rules_of-reads text rules (inl (inl e, n)) = rw (e, n) refl
  rules_of-reads text rules (inl (inr e, n)) = rw (e, n) refl
  rules_of-reads text rules (inr (n, m, e)) =
      rw (eq-false_of_ne _ _ n, eq-false_of_ne _ _ m, e) refl

  pub reads-rules_of :
      (text : String) (rules : List ConditionalClaimRule)
      → rules_of p library text ≡ some rules
      → ReadsRules p text rules
  unfolding rules_of
  reads-rules_of text rules h = elim (Bool-cases (trim_space text == "")) [
    | inl e ↦ inl (inl (ground (arith, eq_iff (trim_space text) "")), ground arith)
    | inr e ↦ elim (Bool-cases (trim_space text == "[]")) [
      | inl f ↦ inl (inr (ground (arith, eq_iff (trim_space text) "[]")), ground arith)
      | inr f ↦ inr (
        λ g. ground (arith, eq_iff (trim_space text) ""),
        λ g. ground (arith, eq_iff (trim_space text) "[]"),
        decoded-pair (p.unmarshal_rules (trim_space text)) rules (ground arith),
      )
    ]
  ]
