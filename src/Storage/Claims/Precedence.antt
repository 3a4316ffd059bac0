-- ===== src/Storage/Claims/Precedence.antt =====
-- Which claim wins: a client's custom claim over a conditional claim over a user's own claim.
use oidc_test_idp.Prelude.{
  String, ◌==◌, eq_iff, ◌≡◌, refl, ◌∙◌, Option, none, List, [], ◌∷◌, any, arith, if◌then◌else◌,
}
use oidc_test_idp.Table.{get}
use oidc_test_idp.Json.{Json, Object, merge, or_else, get-merge}
use oidc_test_idp.Models.{Client, User, ConditionalClaimRule, subject_or_id}
use oidc_test_idp.Platform.{Platform, Healthy}
use oidc_test_idp.Db.{World, Result, ok, err}
use oidc_test_idp.Repo.Clients.Runs.{client_of, get_client_lem}
use oidc_test_idp.Repo.Users.{get_user_by_subject}
use oidc_test_idp.Repo.Users.Runs.{get_user_by_subject-db}
use oidc_test_idp.Storage.Claims.{
  rule_applies, add_rules, evaluate_conditional_claims, user_claims, add_client_claims, UserInfo,
  without_address, add_address, add_scope, add_scopes, append_claims, fill_userinfo, set_userinfo,
  get_private_claims_from_scopes,
}

-- The value that the last applying rule with the claim gives it.
abbrev pub last_rule : String → String → List String → List ConditionalClaimRule → Option Json
last_rule k client_id scopes [] = none
last_rule k client_id scopes (rule ∷ rules) =
    or_else (last_rule k client_id scopes rules)
      (if rule_applies rule client_id scopes then get k rule.claims else none)

get-add_rules :
    (k client_id : String) (scopes : List String) (rules : List ConditionalClaimRule) (out : Object)
    → get k (add_rules rules client_id scopes out)
      ≡ or_else (last_rule k client_id scopes rules) (get k out)
unfolding add_rules
get-add_rules k client_id scopes [] out = refl
get-add_rules k client_id scopes (rule ∷ rules) out = ground (
  arith,
  get-add_rules k client_id scopes rules
      (if rule_applies rule client_id scopes then merge out rule.claims else out),
  get-merge k out rule.claims,
)

-- A conditional claim has the value of the last applying rule that has it, and is absent if no
-- applying rule has it.
pub get-evaluate_conditional_claims :
    (u : User) (k client_id : String) (scopes : List String)
    → get k (evaluate_conditional_claims u client_id scopes)
      ≡ last_rule k client_id scopes u.conditional_claims
unfolding evaluate_conditional_claims get
get-evaluate_conditional_claims u k client_id scopes =
    ground (arith, get-add_rules k client_id scopes u.conditional_claims [])

-- The claim of a client that was looked up.
abbrev pub client_claim : String → Result Client → Option Json
client_claim k (ok c) = get k c.custom_claims
client_claim k (err e) = none

-- The claim of a user who was looked up: a conditional one, or else their own.
abbrev pub user_claim : String → String → List String → Result User → Option Json
user_claim k client_id scopes (ok u) =
    or_else (last_rule k client_id scopes u.conditional_claims) (get k u.claims)
user_claim k client_id scopes (err e) = none

get-add_client_claims :
    (k : String) (c : Result Client) (claims : Object)
    → get k (add_client_claims c claims) ≡ or_else (client_claim k c) (get k claims)
unfolding add_client_claims
get-add_client_claims k (ok c) claims = get-merge k claims c.custom_claims
get-add_client_claims k (err e) claims = refl

get-user_claims :
    (k client_id : String) (scopes : List String) (u : Result User)
    → get k (user_claims u client_id scopes) ≡ user_claim k client_id scopes u
unfolding user_claims get
get-user_claims k client_id scopes (err e) = refl
get-user_claims k client_id scopes (ok u) = ground (
  arith,
  get-merge k (merge [] u.claims) (evaluate_conditional_claims u client_id scopes),
  get-merge k [] u.claims,
  get-evaluate_conditional_claims u k client_id scopes,
)

get-without_address :
    (k : String) (o : Object)
    → get k (without_address o) ≡ (if k == "address" then none else get k o)
unfolding get without_address
get-without_address k [] = ground arith
get-without_address k ((j, v) ∷ o) =
    ground (arith, get-without_address k o, eq_iff j "address", eq_iff j k, eq_iff k "address")

module _ (p : Platform) (healthy : Healthy p) (user_id client_id : String) (scopes : List String)
    (w : World) where
  -- What the two look-ups of the user and of the client give.
  abbrev pub the_user : Result User
  the_user = (get_user_by_subject p user_id w).0

  abbrev pub the_client : Result Client
  the_client = client_of p client_id (get client_id w.clients)

  -- While the driver works, a private claim of an access token is the client's custom claim, or
  -- else the user's conditional claim, or else the user's own claim; a look-up that fails
  -- contributes nothing.
  pub get-private_claims :
      (claims : Object) (k : String)
      → (get_private_claims_from_scopes p user_id client_id scopes w).0 ≡ ok claims
      → get k claims ≡ or_else (client_claim k the_client) (user_claim k client_id scopes the_user)
  unfolding get_private_claims_from_scopes
  get-private_claims claims k h = ground (
    arith,
    get_client_lem p healthy client_id (get_user_by_subject p user_id w).1,
    get_user_by_subject-db p healthy user_id w,
    get-add_client_claims k the_client (user_claims the_user client_id scopes),
    get-user_claims k client_id scopes the_user,
  )

claims-add_scope :
    (p : Platform) (u : User) (scope : String) (info : UserInfo)
    → (add_scope p u scope info).claims ≡ info.claims
unfolding add_scope add_address
claims-add_scope p u scope info = ground arith

claims-add_scopes :
    (p : Platform) (u : User) (scopes : List String) (info : UserInfo)
    → (add_scopes p u scopes info).claims ≡ info.claims
unfolding add_scopes
claims-add_scopes p u [] info = refl
claims-add_scopes p u (scope ∷ scopes) info =
    claims-add_scopes p u scopes (add_scope p u scope info) ∙ claims-add_scope p u scope info

subject-add_scope :
    (p : Platform) (u : User) (scope : String) (info : UserInfo)
    → (add_scope p u scope info).subject
      ≡ (if scope == "openid" then subject_or_id u else info.subject)
unfolding add_scope add_address
subject-add_scope p u scope info = ground arith

-- Whether the userinfo names the user: the scope openid was asked for.
subject-add_scopes :
    (p : Platform) (u : User) (scopes : List String) (info : UserInfo)
    → (add_scopes p u scopes info).subject
      ≡ (if any (λ s. s == "openid") scopes then subject_or_id u else info.subject)
unfolding add_scopes
subject-add_scopes p u [] info = refl
subject-add_scopes p u (scope ∷ scopes) info = ground (
  arith,
  subject-add_scopes p u scopes (add_scope p u scope info),
  subject-add_scope p u scope info,
)

module _ (p : Platform) (healthy : Healthy p) (user_id client_id : String) (scopes : List String)
    (w : World) (info : UserInfo) where
  -- The userinfo of a token whose subject names a user.
  module _ (u : User) (found : (get_user_by_subject p user_id w).0 ≡ ok u) where
    set_userinfo_lem :
        (set_userinfo p user_id client_id scopes info w).0
        ≡ ok (
            append_claims u client_id scopes
              (client_of p client_id (get client_id w.clients))
              (add_scopes p u scopes info))
    unfolding set_userinfo fill_userinfo
    set_userinfo_lem = ground (
      arith,
      get_client_lem p healthy client_id (get_user_by_subject p user_id w).1,
      get_user_by_subject-db p healthy user_id w,
    )

    -- While the driver works and the subject names a user, a claim of the userinfo is the
    -- client's, or else the conditional one, or else the user's own but for "address", or else
    -- what was there; its subject is the user's if openid was asked for.
    pub set_userinfo-claims :
        (filled : UserInfo) (k : String)
        → (set_userinfo p user_id client_id scopes info w).0 ≡ ok filled
        → (get k filled.claims
            ≡ or_else (client_claim k (client_of p client_id (get client_id w.clients))) (
                or_else
                  (last_rule k client_id scopes u.conditional_claims)
                  (or_else (if k == "address" then none else get k u.claims) (get k info.claims))))
          × (filled.subject
              ≡ (if any (λ s. s == "openid") scopes then subject_or_id u else info.subject))
    unfolding append_claims
    set_userinfo-claims filled k h = ground (
      arith,
      set_userinfo_lem,
      get-add_client_claims k (client_of p client_id (get client_id w.clients)) (
          merge (merge (add_scopes p u scopes info).claims (without_address u.claims))
            (evaluate_conditional_claims u client_id scopes)),
      get-merge k (merge (add_scopes p u scopes info).claims (without_address u.claims))
          (evaluate_conditional_claims u client_id scopes),
      get-merge k (add_scopes p u scopes info).claims (without_address u.claims),
      get-evaluate_conditional_claims u k client_id scopes,
      get-without_address k u.claims,
      claims-add_scopes p u scopes info,
      subject-add_scopes p u scopes info,
    )
