-- ===== src/Examples/Admin.antt =====
-- Examples for the admin console.
use oidc_test_idp.Prelude.{
  String, ◌≡◌, ◌==◌, inl, refl, none, some, Option, List, [], ◌∷◌, if◌then◌else◌,
}
use oidc_test_idp.Prelude.Split.{trim_space, contains}
use oidc_test_idp.Json.{Object, null}
use oidc_test_idp.Http.{HttpRequest, Write, status, writes}
use oidc_test_idp.Db.{ok, M, pure}
use oidc_test_idp.Discovery.{Answer, discovery_override}
use oidc_test_idp.Discovery.Merged.{IsRewritten, discovery_override-IsRewritten, overrides}
use oidc_test_idp.Admin.{redirected}
use oidc_test_idp.Admin.Forms.{parse_response_types, join_response_types}
use oidc_test_idp.Admin.RoundTrip.{parse-join_response_types}
use oidc_test_idp.Admin.Pages.{Library}
use oidc_test_idp.Admin.Clients.{save_client}
use oidc_test_idp.Admin.Clients.Renamed.{IsApplied, save_client-IsApplied}
use oidc_test_idp.Admin.Settings.{save_settings, override_of}
use oidc_test_idp.Admin.Settings.Applied.{overrides_of, save_settings-IsRewritten}
use oidc_test_idp.Sample.{sample, sample-Healthy}
use oidc_test_idp.Examples.Fixtures.{visit, session, differ}

parse-join_response_types_example :
    parse_response_types (join_response_types ("code" ∷ "id_token token" ∷ []))
    ≡ ("code" ∷ "id_token token" ∷ [])
unfolding trim_space contains
parse-join_response_types_example = parse-join_response_types "code" ("id_token token" ∷ []) (
  ((differ "code" "" refl, refl, refl), refl),
  (((differ "id_token token" "" refl, refl, refl), refl), tt),
)

-- A library that indents nothing and keeps the order of the rows.
abbrev plain : Library
plain = record {
  indent_object = λ o. none;
  indent_rules = λ l. none;
  by_id = λ t. t;
  by_username = λ t. t;
}

-- A form with the id of a client that was shown as another, and an algorithm that is refused.
abbrev renaming : String → String
renaming key =
    if key == "id"
    then "store"
    else if key == "orig_id"
    then "shop"
    else if key == "username"
    then "carol"
    else if key == "id_token_sign_alg"
    then "HS256"
    else ""

abbrev admin_form : HttpRequest
admin_form = visit "/admin/clients" (λ k. "") renaming

save_client-IsApplied_example :
    IsApplied sample sample-Healthy plain admin_form [] session
      (save_client sample plain admin_form session)
unfolding trim_space
save_client-IsApplied_example =
    save_client-IsApplied sample sample-Healthy plain admin_form [] session refl (inl (refl, refl))
      (differ "store" "" refl)

-- One text is an override; any other one is an empty object.
abbrev decode_override : String → Option (Option Object)
decode_override s = if s == "{x}" then some (some (("issuer", null) ∷ [])) else some (some [])

-- A document in two parts, under a status of its own.
abbrev document : List Write
document = status 201 ∷ writes "{" ∷ writes "}" ∷ []

abbrev documents : HttpRequest → M (List Write)
documents r = pure document

abbrev settings_form : HttpRequest
settings_form = visit "/admin/settings" (λ k. "") (λ k. " {x} ")

abbrev discovery_visit : HttpRequest
discovery_visit = visit "/.well-known/openid-configuration" (λ k. "") (λ k. "")

save_settings-IsRewritten_example :
    ((save_settings sample settings_form session).0 ≡ ok (redirected "/admin/settings"))
    × ((a : Answer) × ((discovery_override sample decode_override documents discovery_visit
            (save_settings sample settings_form session).1).0
          ≡ ok a)
        × IsRewritten sample sample-Healthy decode_override documents
            (overrides_of sample sample-Healthy decode_override documents
              (override_of sample " {x} "))
            document
            a)
save_settings-IsRewritten_example =
    save_settings-IsRewritten sample sample-Healthy decode_override documents settings_form
      discovery_visit session document refl refl refl (λ v h. refl)

discovery_override-IsRewritten_example :
    (a : Answer) × ((discovery_override sample decode_override documents discovery_visit session).0
      ≡ ok a)
    × IsRewritten sample sample-Healthy decode_override documents
        (overrides sample sample-Healthy decode_override documents discovery_visit session.db)
        document
        a
discovery_override-IsRewritten_example =
    discovery_override-IsRewritten sample sample-Healthy decode_override documents discovery_visit
      session document (λ v h. refl)
