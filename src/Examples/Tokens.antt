-- ===== src/Examples/Tokens.antt =====
-- Examples for the access and refresh tokens.
use oidc_test_idp.Prelude.{◌≡◌, refl, ap, none, [], arith, ◌<◌}
use oidc_test_idp.Table.{get, put, delete}
use oidc_test_idp.Platform.{year_10000}
use oidc_test_idp.Db.{World, ok, err, invalid_refresh_token}
use oidc_test_idp.Repo.Clients.{client_row, scan_client}
use oidc_test_idp.Models.{seconds}
use oidc_test_idp.Storage.Tokens.{
  TokenRequest, refresh, auth, create_access_token, create_access_and_refresh_tokens, load_token,
  access_lifetime_of, application_of, get_info_from_request, refresh_columns,
}
use oidc_test_idp.Storage.Tokens.Runs.{refresh_token_of, scan_refresh_token-refresh_columns}
use oidc_test_idp.Storage.Tokens.Issue.{issued, load-create_access_token}
use oidc_test_idp.Storage.Tokens.Rotation.{exchanged, exchanging, after_rotation, replay}
use oidc_test_idp.Storage.Tokens.SingleUse.{IsRotated, exchange-IsRotated, exchange_twice}
use oidc_test_idp.Storage.Revocation.{revoke_token, terminate_session}
use oidc_test_idp.Storage.Revocation.Branches.{revoke_token-eq-revocation}
use oidc_test_idp.Storage.Revocation.Sessions.{IsEnded, terminate_session-IsEnded}
use oidc_test_idp.Sample.{sample, sample-Healthy, sample-RoundTrips}
use oidc_test_idp.Examples.Fixtures.{differ, old_refresh, session, pending}

abbrev asks : TokenRequest
asks = refresh old_refresh

known : refresh_token_of sample "r0" (get "r0" session.refresh_tokens) ≡ ok old_refresh
unfolding get
known = ap ok (
    scan_refresh_token-refresh_columns sample sample-RoundTrips old_refresh (omega arith)
      (omega arith))

fresh : get "vu" session.tokens ≡ none
unfolding get
fresh = refl

early : (exchanged sample asks session).expiration < year_10000
unfolding access_lifetime_of get scan_client client_row seconds get_info_from_request
early = omega arith

unused : get "vvvu" (after_rotation sample asks session "r0" old_refresh).tokens ≡ none
unfolding get delete put
unused = refl

exchange-IsRotated_example :
    ((create_access_and_refresh_tokens sample asks "r0" session).0
      ≡ ok ("vu", "u", (exchanged sample asks session).expiration))
    × IsRotated sample asks old_refresh "r0" session
        (create_access_and_refresh_tokens sample asks "r0" session).1
unfolding get
exchange-IsRotated_example =
    exchange-IsRotated sample sample-Healthy asks "r0" session old_refresh known
      (differ "r0" "" refl) fresh refl (omega arith) sample-RoundTrips (differ "t0" "vu" refl) early
      (omega arith) (omega arith)

exchange_twice_example :
    (create_access_and_refresh_tokens sample asks "r0"
      (create_access_and_refresh_tokens sample asks "r0" session).1).0
    ≡ err invalid_refresh_token
unfolding get
exchange_twice_example =
    exchange_twice sample sample-Healthy asks "r0" session old_refresh known (differ "r0" "" refl)
      fresh refl (omega arith) asks unused

replay_example :
    ((create_access_and_refresh_tokens sample asks "r1" session).0 ≡ err invalid_refresh_token)
    × ((create_access_and_refresh_tokens sample asks "r1" session).1.db
        ≡ (exchanging sample asks session).db)
unfolding get
replay_example = replay sample sample-Healthy asks "r1" session (differ "r1" "" refl) fresh refl

-- The clock has passed the expiration of the refresh token.
abbrev late : World
late = record session { times = 100 }

issued_early :
    (issued sample sample-Healthy sample-RoundTrips (auth pending) session).expiration < year_10000
unfolding access_lifetime_of get scan_client client_row seconds application_of
issued_early = omega arith

load-create_access_token_example :
    ((create_access_token sample (auth pending) session).0
      ≡ ok (
        (issued sample sample-Healthy sample-RoundTrips (auth pending) session).id,
        (issued sample sample-Healthy sample-RoundTrips (auth pending) session).expiration,
      ))
    × ((load_token sample "u" (create_access_token sample (auth pending) session).1).0
        ≡ ok (issued sample sample-Healthy sample-RoundTrips (auth pending) session))
unfolding get
load-create_access_token_example =
    load-create_access_token sample sample-Healthy sample-RoundTrips (auth pending) session "u" refl
      issued_early

revoke_token-eq-revocation_example :
    ((revoke_token sample "r0" "alice" "shop" session).0 ≡ ok tt)
    × ((revoke_token sample "r0" "alice" "shop" session).1.db
        ≡ record session.db { refresh_tokens = []; tokens = [] })
unfolding get delete refresh_columns
revoke_token-eq-revocation_example =
    revoke_token-eq-revocation sample sample-Healthy "r0" "alice" "shop" session

terminate_session-IsEnded_example :
    ((terminate_session sample "alice" "shop" session).0 ≡ ok tt)
    × IsEnded "alice" "shop" session (terminate_session sample "alice" "shop" session).1
terminate_session-IsEnded_example =
    terminate_session-IsEnded sample sample-Healthy "alice" "shop" session
