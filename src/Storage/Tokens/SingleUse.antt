-- ===== src/Storage/Tokens/SingleUse.antt =====
-- A refresh token is good for one exchange, and what the exchange leaves behind.
use oidc_test_idp.Prelude.{suc, ◌≤◌, ◌<◌, String, eq_iff, eq_refl, ◌≡◌, ◌≢◌, refl, ap, none, arith}
use oidc_test_idp.Table.{get, put, get-put, get-delete}
use oidc_test_idp.Platform.{Platform, RoundTrips, Healthy, year_10000}
use oidc_test_idp.Models.{RefreshToken}
use oidc_test_idp.Db.{World, invalid_refresh_token, ok, err}
use oidc_test_idp.Storage.Tokens.{TokenRequest, token_columns, create_access_and_refresh_tokens}
use oidc_test_idp.Storage.Tokens.Runs.{
  token_of, refresh_token_of, scan_token-token_columns, scan_refresh_token-refresh_columns,
}
use oidc_test_idp.Storage.Tokens.Rotation.{exchanged, renewed, after_rotation, exchange_lem, replay}

-- `w` is before the exchange of `old`, and `q` after it. The old refresh token and its access token
-- are gone; the new refresh token loads with the old one's user, client, scopes, audience, amr and
-- auth time, and with the new access token's id; the new access token loads; every other token,
-- of either kind, is as before.
pub record IsRotated (p : Platform) (request : TokenRequest) (old : RefreshToken) (current : String)
    (w q : World) : Type 0 where
  pub old_gone : get current q.refresh_tokens ≡ none
  pub old_access_gone : get old.access_token q.tokens ≡ none
  pub new_refresh :
      refresh_token_of p (p.uuid w.ids) (get (p.uuid w.ids) q.refresh_tokens)
      ≡ ok (renewed p request w old)
  pub new_access :
      token_of p (p.uuid (suc w.ids)) (get (p.uuid (suc w.ids)) q.tokens)
      ≡ ok (exchanged p request w)
  pub others :
      (j : String) → j ≢ p.uuid (suc w.ids) → j ≢ old.access_token → get j q.tokens ≡ get j w.tokens
  pub other_refresh :
      (j : String)
      → j ≢ p.uuid w.ids
      → j ≢ current
      → get j q.refresh_tokens ≡ get j w.refresh_tokens

module _ (p : Platform) (healthy : Healthy p) (request : TokenRequest) (current : String)
    (w : World) (old : RefreshToken)
    (known : refresh_token_of p current (get current w.refresh_tokens) ≡ ok old)
    (named : current ≢ "") (fresh_token : get (p.uuid (suc w.ids)) w.tokens ≡ none)
    (fresh_refresh : get (p.uuid w.ids) w.refresh_tokens ≡ none)
    (early : p.clock (suc w.times) ≤ old.expiration) where
  new-ne-current : p.uuid w.ids ≢ current
  new-ne-current e = ground (arith, ap (λ (j : String). get j w.refresh_tokens) e)

  after_rotation-IsRotated :
      RoundTrips p
      → old.access_token ≢ p.uuid (suc w.ids)
      → (exchanged p request w).expiration < year_10000
      → (renewed p request w old).expiration < year_10000
      → old.auth_time < year_10000
      → IsRotated p request old current w (after_rotation p request w current old)
  after_rotation-IsRotated trips other e r a = record {
    old_gone =
        rw (get-put, get-delete)
          (ground (arith, new-ne-current, eq_iff (p.uuid w.ids) current, eq_refl current));
    old_access_gone = rw get-delete (rw (eq_refl old.access_token));
    new_refresh =
        rw (get-put, eq_refl (p.uuid w.ids))
          (ap ok (scan_refresh_token-refresh_columns p trips (renewed p request w old) a r));
    new_access = ground (
      arith,
      get-delete old.access_token (p.uuid (suc w.ids))
          (put (p.uuid (suc w.ids)) (token_columns p (exchanged p request w)) w.tokens),
      get-put (p.uuid (suc w.ids)) (p.uuid (suc w.ids)) (token_columns p (exchanged p request w))
          w.tokens,
      eq_iff old.access_token (p.uuid (suc w.ids)),
      eq_refl (p.uuid (suc w.ids)),
      scan_token-token_columns p trips (exchanged p request w) e,
    );
    others = λ j h k.
        simp (get-delete, get-put)
          (ground (arith, eq_iff old.access_token j, eq_iff (p.uuid (suc w.ids)) j));
    other_refresh = λ j h k.
        simp (get-delete, get-put) (ground (arith, eq_iff current j, eq_iff (p.uuid w.ids) j));
  }

  -- Exchanging a known refresh token that has not expired returns the two new tokens and rotates:
  -- the old refresh token and its access token are gone, the new ones load with the right
  -- contents, and all other tokens are as before; it needs a driver that works, texts that
  -- round-trip, fresh new ids, times before the year 10000, and an old access token other than the
  -- new one.
  pub exchange-IsRotated :
      RoundTrips p
      → old.access_token ≢ p.uuid (suc w.ids)
      → (exchanged p request w).expiration < year_10000
      → (renewed p request w old).expiration < year_10000
      → old.auth_time < year_10000
      → ((create_access_and_refresh_tokens p request current w).0
          ≡ ok (p.uuid (suc w.ids), p.uuid w.ids, (exchanged p request w).expiration))
        × IsRotated p request old current w (create_access_and_refresh_tokens p request current w).1
  exchange-IsRotated trips other e r a =
      rw (exchange_lem p healthy request current w old known named fresh_token fresh_refresh early)
        (refl, after_rotation-IsRotated trips other e r a)

  -- While the driver works, after an exchange of a known refresh token, which is not empty and has
  -- not expired, with fresh ids for the access token and the refresh token that it issues, a
  -- second exchange of the same refresh token is refused, whatever the request, if the id of the
  -- access token that it issues is fresh too.
  pub exchange_twice :
      (again : TokenRequest)
      → get (p.uuid (suc (suc (suc w.ids)))) (after_rotation p request w current old).tokens ≡ none
      → (create_access_and_refresh_tokens p again current
          (create_access_and_refresh_tokens p request current w).1).0
        ≡ err invalid_refresh_token
  exchange_twice again fresh =
      rw (exchange_lem p healthy request current w old known named fresh_token fresh_refresh early)
        (replay p healthy again current (after_rotation p request w current old) named fresh (
          rw (get-put, get-delete)
            (ground (arith, new-ne-current, eq_iff (p.uuid w.ids) current, eq_refl current)))).0
