-- ===== src/Storage/Claims.antt =====
-- Userinfo, introspection and private claims of internal/storage/storage.go.
pub mod Precedence
pub mod Active
use Prim.Native.String
use mathlib.Core.Option
use oidc_test_idp.Prelude.{
  ℕ, String, ◌==◌, Bool, true, false, ◌&&◌, ◌||◌, not, ltb, Option, none, some, List, [], ◌∷◌, all,
  any, if◌then◌else◌,
}
use oidc_test_idp.Table
use oidc_test_idp.Json.{Json, text, obj, Fields, field?, Object, merge}
use oidc_test_idp.Models.{Client, User, ConditionalClaimRule, subject_or_id, TokenRow, AuthRequest}
use oidc_test_idp.Platform.{Platform}
use oidc_test_idp.Db.{
  Error, Result, ok, err, token_invalid, token_expired, token_not_for_client, M, ◌>>=◌, pure, raise,
  attempt, or_error, time_now,
}
use oidc_test_idp.Repo.Clients.{get_client}
use oidc_test_idp.Repo.Users.{get_user_by_subject}
use oidc_test_idp.Storage.Tokens.{load_token}

-- `hasAllScopes`; the set of scopes is the list that it is made of.
unfoldable pub has_all_scopes : List String → List String → Bool
has_all_scopes have want = all (λ s. any (λ h. h == s) have) want

-- Whether a rule applies: an empty client id or list of scopes matches every request.
unfoldable pub rule_applies : ConditionalClaimRule → String → List String → Bool
unfolding has_all_scopes
rule_applies rule client_id scopes =
    (rule.client_id == "" || rule.client_id == client_id) && has_all_scopes scopes rule.scopes

-- The loop of `EvaluateConditionalClaims` from the map `out`; nil and the empty map are both `[]`.
unfoldable pub add_rules : List ConditionalClaimRule → String → List String → Object → Object
unfolding rule_applies merge
add_rules [] client_id scopes out = out
add_rules (rule ∷ rules) client_id scopes out =
    add_rules rules client_id scopes
      (if rule_applies rule client_id scopes then merge out rule.claims else out)

unfoldable pub evaluate_conditional_claims : User → String → List String → Object
unfolding add_rules
evaluate_conditional_claims u client_id scopes = add_rules u.conditional_claims client_id scopes []

-- The claims of a user who was found, then those of a client that was found.
unfoldable pub user_claims : Result User → String → List String → Object
unfolding evaluate_conditional_claims merge
user_claims (err _) client_id scopes = []
user_claims (ok u) client_id scopes =
    merge (merge [] u.claims) (evaluate_conditional_claims u client_id scopes)

unfoldable pub add_client_claims : Result Client → Object → Object
unfolding merge
add_client_claims (err _) claims = claims
add_client_claims (ok c) claims = merge claims c.custom_claims

pub record UserInfoAddress : Type 0 where
  pub formatted : String
  pub street_address : String
  pub locality : String
  pub region : String
  pub postal_code : String
  pub country : String

-- The library's `oidc.UserInfo`: the fields that the code sets, and the appended claims.
pub record UserInfo : Type 0 where
  pub subject : String
  pub email : String
  pub email_verified : Bool
  pub preferred_username : String
  pub name : String
  pub family_name : String
  pub given_name : String
  pub locale : Option String
  pub phone_number : String
  pub phone_number_verified : Bool
  pub address : Option UserInfoAddress
  pub claims : Object

-- The library's `oidc.IntrospectionResponse`, as far as the code sets it.
pub record Introspection : Type 0 where
  pub expiration : ℕ
  pub user_info : Option UserInfo
  pub scope : List String
  pub client_id : String

abbrev pub empty_user_info : UserInfo
empty_user_info = record {
  subject = "";
  email = "";
  email_verified = false;
  preferred_username = "";
  name = "";
  family_name = "";
  given_name = "";
  locale = none;
  phone_number = "";
  phone_number_verified = false;
  address = none;
  claims = [];
}

-- `m[k].(string)`, or "".
address_text : String → Fields → String
address_text k m = elim (field? k m) [ some (text s) ↦ s | _ ↦ "" ]

unfoldable pub to_address : Fields → UserInfoAddress
unfolding address_text
to_address m = record {
  formatted = address_text "formatted" m;
  street_address = address_text "street_address" m;
  locality = address_text "locality" m;
  region = address_text "region" m;
  postal_code = address_text "postal_code" m;
  country = address_text "country" m;
}

unfoldable pub join_name : String → String → String
join_name first last =
    if first == "" && last == ""
    then ""
    else if first == ""
    then last
    else if last == ""
    then first
    else String.◌++◌ first (String.◌++◌ " " last)

-- The claim "address", if it is an object.
unfoldable pub add_address : Option Json → UserInfo → UserInfo
unfolding to_address
add_address (some (obj m)) info = record info { address = some (to_address m) }
add_address _ info = info

-- `for k, v := range u.Claims { if k == "address" { continue }; … }`
unfoldable pub without_address : Object → Object
without_address [] = []
without_address ((k, v) ∷ o) =
    let rest = without_address o in if k == "address" then rest else (k, v) ∷ rest

-- Without a user: the subject, and the client's claims.
unfoldable pub clientless_info : String → Result Client → UserInfo → UserInfo
unfolding add_client_claims
clientless_info user_id c info = record info {
  subject = user_id;
  claims = add_client_claims c info.claims;
}

-- With a user, after the loop over the scopes.
unfoldable pub append_claims : User → String → List String → Result Client → UserInfo → UserInfo
unfolding add_client_claims merge without_address evaluate_conditional_claims
append_claims u client_id scopes c info = record info {
  claims = add_client_claims c (
      merge (merge info.claims (without_address u.claims))
        (evaluate_conditional_claims u client_id scopes));
}

module _ (p : Platform) where
  unfoldable pub locale_tag : String → String
  locale_tag s = if s == "" then "en" else elim (p.parse_language s) [ none ↦ "en" | some t ↦ t ]

  -- One round of the loop over the scopes.
  unfoldable pub add_scope : User → String → UserInfo → UserInfo
  unfolding subject_or_id join_name locale_tag add_address
  add_scope u scope info =
      if scope == "openid"
      then record info { subject = subject_or_id u }
      else if scope == "email"
      then record info { email = u.email; email_verified = u.email_verified }
      else if scope == "profile"
      then record info {
        preferred_username = u.username;
        name = join_name u.first_name u.last_name;
        family_name = u.last_name;
        given_name = u.first_name;
        locale = some (locale_tag u.preferred_language);
      }
      else if scope == "phone"
      then record info { phone_number = u.phone; phone_number_verified = u.phone_verified }
      else if scope == "address"
      then add_address (Table.get "address" u.claims) info
      else info

  unfoldable pub add_scopes : User → List String → UserInfo → UserInfo
  unfolding add_scope
  add_scopes u [] info = info
  add_scopes u (scope ∷ scopes) info = add_scopes u scopes (add_scope u scope info)

  unfoldable pub fill_userinfo : Result User → String → String → List String → UserInfo → M UserInfo
  unfolding clientless_info append_claims add_scopes
  fill_userinfo (err _) user_id client_id scopes info = do
    c ← attempt (get_client p client_id)
    pure (clientless_info user_id c info)
  fill_userinfo (ok u) user_id client_id scopes info = do
    let filled = add_scopes u scopes info
    c ← attempt (get_client p client_id)
    pure (append_claims u client_id scopes c filled)

  unfoldable pub set_userinfo : String → String → List String → UserInfo → M UserInfo
  set_userinfo user_id client_id scopes info = do
    u ← attempt (get_user_by_subject p user_id)
    fill_userinfo u user_id client_id scopes info

  unfoldable pub set_userinfo_from_token : String → UserInfo → M UserInfo
  set_userinfo_from_token token_id info = do
    t ← or_error token_invalid (load_token p token_id)
    now ← time_now p
    if ltb t.expiration now
        then raise token_expired
        else set_userinfo t.subject t.application_id t.scopes info

  -- `userInfo` is a new one; a failure is impossible here, since `setUserinfo` returns nil.
  unfoldable pub introspect :
      TokenRow → String → String → Introspection → M (Introspection × Option Error)
  introspect t subject client_id answer = do
    info ← set_userinfo subject client_id t.scopes empty_user_info
    pure (
      record answer { user_info = some info; scope = t.scopes; client_id = t.application_id },
      none,
    )

  -- What follows a token that was found; `expiration` is set before it is tested.
  unfoldable pub introspect_found :
      TokenRow → String → String → Introspection → M (Introspection × Option Error)
  introspect_found t subject client_id answer = do
    let dated = record answer { expiration = t.expiration }
    now ← time_now p
    if ltb t.expiration now
        then pure (dated, some token_expired)
        else if any (λ aud. aud == client_id) t.audience
        then introspect t subject client_id dated
        else pure (dated, some token_not_for_client)

  unfoldable pub introspect_loaded :
      Result TokenRow → String → String → Introspection → M (Introspection × Option Error)
  introspect_loaded (err _) subject client_id answer = pure (answer, some token_invalid)
  introspect_loaded (ok t) subject client_id answer = introspect_found t subject client_id answer

  -- The response as the caller has it after the call, and the error.
  unfoldable pub set_introspection_from_token :
      String → String → String → Introspection → M (Introspection × Option Error)
  set_introspection_from_token token_id subject client_id answer = do
    t ← attempt (load_token p token_id)
    introspect_loaded t subject client_id answer

  -- nil and the empty map are both `[]`.
  unfoldable pub get_private_claims_from_scopes : String → String → List String → M Object
  unfolding user_claims add_client_claims
  get_private_claims_from_scopes user_id client_id scopes = do
    u ← attempt (get_user_by_subject p user_id)
    c ← attempt (get_client p client_id)
    pure (add_client_claims c (user_claims u client_id scopes))

-- `ValidateJWTProfileScopes`
unfoldable pub validate_jwt_profile_scopes : List String → List String
validate_jwt_profile_scopes [] = []
validate_jwt_profile_scopes (scope ∷ scopes) =
    let rest = validate_jwt_profile_scopes scopes in
    if scope == "openid" then scope ∷ rest else rest
