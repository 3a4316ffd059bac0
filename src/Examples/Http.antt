-- ===== src/Examples/Http.antt =====
-- Examples for the request log, the configuration and the claims.
use oidc_test_idp.Prelude.{
  String, ◌≡◌, ◌==◌, ◌↔◌, ◌++◌, refl, false, none, some, List, [], ◌∷◌, arith, pos, length,
  if◌then◌else◌,
}
use mathlib.Core.List.{reverse}
use oidc_test_idp.Prelude.Text.{has_suffix}
use oidc_test_idp.Table.{get, find}
use oidc_test_idp.Json.{Object, or_else}
use oidc_test_idp.Models.{User, subject_or_id}
use oidc_test_idp.Db.{ok, query}
use oidc_test_idp.Config.{Config, Environment, load}
use oidc_test_idp.Config.Issuer.{load_issuer}
use oidc_test_idp.Reqlog.{Entry, new, entries}
use oidc_test_idp.Reqlog.Ring.{add_all, entries-add_all}
use oidc_test_idp.Repo.Users.{scan_user, user_row, get_user, user_by_subject, get_user_by_subject}
use oidc_test_idp.Repo.Clients.Runs.{client_of}
use oidc_test_idp.Storage.Claims.{UserInfo, empty_user_info, get_private_claims_from_scopes}
use oidc_test_idp.Storage.Claims.Active.{set_userinfo_total}
use oidc_test_idp.Storage.Claims.Precedence.{
  last_rule, client_claim, user_claim, the_user, the_client, get-private_claims,
  set_userinfo-claims,
}
use oidc_test_idp.Sample.{sample, sample-Healthy}
use oidc_test_idp.Examples.Fixtures.{alice_row, session}

abbrev hit : String → Entry
hit path = record {
  time = 0;
  method = "GET";
  path = path;
  client_id = "shop";
  status = 200;
  duration_ms = 1;
}

abbrev hits : List Entry
hits = hit "/a" ∷ hit "/b" ∷ hit "/c" ∷ []

entries-add_all_example :
    (dropped : List Entry) × (hits ≡ dropped ++ reverse (entries (add_all (new (pos 2)) hits)))
    × (length (entries (add_all (new (pos 2)) hits)) ≡ 2)
entries-add_all_example = entries-add_all 2 hits (omega arith)

abbrev slashes : Environment
slashes key = if key == "IDP_ISSUER" then some "//" else none

load_issuer_example :
    ((load slashes ≡ none) ↔ (slashes "IDP_ISSUER" ≡ some ""))
    × ((c : Config) → load slashes ≡ some c → has_suffix c.issuer "/" ≡ false)
load_issuer_example = load_issuer slashes

abbrev alice_read : User
alice_read = scan_user sample "alice" alice_row

names_alice : (get_user_by_subject sample "alice" session).0 ≡ ok alice_read
unfolding get_user_by_subject user_by_subject get_user query get find user_row
names_alice = refl

abbrev filled : UserInfo
filled =
    (set_userinfo_total sample sample-Healthy "alice" "shop" ("openid" ∷ []) empty_user_info
      session).0

set_userinfo-claims_example :
    (get "tier" filled.claims
      ≡ or_else (client_claim "tier" (client_of sample "shop" (get "shop" session.clients))) (
          or_else
            (last_rule "tier" "shop" ("openid" ∷ []) alice_read.conditional_claims)
            (or_else (get "tier" alice_read.claims) (get "tier" empty_user_info.claims))))
    × (filled.subject ≡ subject_or_id alice_read)
set_userinfo-claims_example =
    set_userinfo-claims sample sample-Healthy "alice" "shop" ("openid" ∷ []) session empty_user_info
      alice_read names_alice filled "tier"
      (set_userinfo_total sample sample-Healthy "alice" "shop" ("openid" ∷ []) empty_user_info
        session).1

private_total :
    (claims : Object) × ((get_private_claims_from_scopes sample "alice" "shop"
        ("openid" ∷ [])
        session).0
      ≡ ok claims)
unfolding get_private_claims_from_scopes
private_total = (_, refl)

get-private_claims_example :
    get "tier" private_total.0
    ≡ or_else
        (client_claim "tier"
          (the_client sample sample-Healthy "alice" "shop" ("openid" ∷ []) session))
        (user_claim "tier" "shop"
          ("openid" ∷ [])
          (the_user sample sample-Healthy "alice" "shop" ("openid" ∷ []) session))
get-private_claims_example =
    get-private_claims sample sample-Healthy "alice" "shop" ("openid" ∷ []) session private_total.0
      "tier" private_total.1
