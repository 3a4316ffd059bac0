-- ===== src/Storage/Tokens/Rotation.antt =====
-- Exchanging a refresh token: rotation, replay and expiry.
use oidc_test_idp.Prelude.{suc, ◌+◌, ◌≤◌, ◌<◌, String, eq_iff, ◌≡◌, ◌≢◌, none, arith}
use oidc_test_idp.Table.{get, put, delete, get-delete}
use oidc_test_idp.Models.{RefreshToken, TokenRow}
use oidc_test_idp.Platform.{Platform, Healthy}
use oidc_test_idp.Db.{
  World, invalid_refresh_token, expired_refresh_token, Result, ok, err, time_now, new_string,
}
use oidc_test_idp.Db.Statements.{counted_on}
use oidc_test_idp.Storage.Tokens.{
  TokenRequest, subject_of, audience_of, scopes_of, get_info_from_request, hours_5, token_columns,
  refresh_columns, rotate, renew_refresh_token, issue_renewed, create_access_and_refresh_tokens,
}
use oidc_test_idp.Storage.Tokens.Runs.{
  refresh_token_of, minted, after_minting, load_refresh_token_lem, access_token_lem,
  insert_refresh_token_lem, delete_refresh_row_lem, delete_token_row_lem,
}

module _ (p : Platform) (request : TokenRequest) (w : World) where
  -- The access token of the exchange; its refresh token is the id drawn before.
  abbrev pub exchanged : TokenRow
  exchanged =
      minted p (record w { ids = suc w.ids }) (get_info_from_request request).0 (p.uuid w.ids)
        (subject_of request) (audience_of request) (scopes_of request)

  -- The world once the access token is issued, before the refresh token is renewed.
  abbrev pub exchanging : World
  exchanging = after_minting p (record w { ids = suc w.ids }) exchanged

  -- The refresh token that takes the place of an old one.
  abbrev pub renewed : RefreshToken → RefreshToken
  renewed old = record old {
    id = p.uuid w.ids;
    token = p.uuid w.ids;
    expiration = p.clock (suc (suc w.times)) + hours_5;
    access_token = exchanged.id;
  }

  abbrev pub after_rotation : String → RefreshToken → World
  after_rotation current old = record w {
    db = record w.db {
      tokens = delete old.access_token (put exchanged.id (token_columns p exchanged) w.tokens);
      refresh_tokens =
          put (p.uuid w.ids) (refresh_columns p (renewed old)) (delete current w.refresh_tokens);
    };
    statements = suc (suc (suc (suc (suc (suc w.statements)))));
    ids = suc (suc w.ids);
    times = suc (suc (suc w.times));
  }

module _ (p : Platform) (healthy : Healthy p) (request : TokenRequest) (current : String)
    (w : World) where
  issue_renewed_lem :
      current ≢ ""
      → get (p.uuid (suc w.ids)) w.tokens ≡ none
      → (r : Result (Unit {0})) (w' : World)
      → renew_refresh_token p current
          (p.uuid w.ids)
          (exchanged p request w).id
          (exchanging p request w)
        ≡ (r, w')
      → create_access_and_refresh_tokens p request current w ≡ (
        elim r [
          | ok _ ↦ ok ((exchanged p request w).id, p.uuid w.ids, (exchanged p request w).expiration)
          | err e ↦ err e
        ],
        w',
      )
  unfolding create_access_and_refresh_tokens issue_renewed new_string
  issue_renewed_lem named fresh r w' e = ground (
    arith,
    eq_iff current "",
    access_token_lem p healthy (get_info_from_request request).0 (p.uuid w.ids) (subject_of request)
        (audience_of request) (scopes_of request) (record w { ids = suc w.ids }) fresh,
  )

  -- With a driver that works and a fresh id for the new access token, an exchange of an unknown
  -- refresh token fails and leaves the database as it is once that access token is issued.
  pub replay :
      current ≢ ""
      → get (p.uuid (suc w.ids)) w.tokens ≡ none
      → get current w.refresh_tokens ≡ none
      → ((create_access_and_refresh_tokens p request current w).0 ≡ err invalid_refresh_token)
        × ((create_access_and_refresh_tokens p request current w).1.db
            ≡ (exchanging p request w).db)
  unfolding renew_refresh_token
  replay named fresh unknown = ground (
    arith,
    issue_renewed_lem named fresh (err invalid_refresh_token) (counted_on (exchanging p request w)),
    load_refresh_token_lem p healthy current (exchanging p request w),
  )

  module _ (old : RefreshToken)
      (known : refresh_token_of p current (get current w.refresh_tokens) ≡ ok old) where
    -- With a driver that works and a fresh id for the new access token, an exchange of a refresh
    -- token past its expiration fails and leaves the database as it is once that access token is
    -- issued.
    pub expired :
        current ≢ ""
        → get (p.uuid (suc w.ids)) w.tokens ≡ none
        → old.expiration < p.clock (suc w.times)
        → ((create_access_and_refresh_tokens p request current w).0 ≡ err expired_refresh_token)
          × ((create_access_and_refresh_tokens p request current w).1.db
              ≡ (exchanging p request w).db)
    unfolding renew_refresh_token time_now
    expired named fresh late = ground (
      arith,
      issue_renewed_lem named fresh (err expired_refresh_token)
          (record (counted_on (exchanging p request w)) {
            times = suc (exchanging p request w).times;
          }),
      load_refresh_token_lem p healthy current (exchanging p request w),
    )

    rotate_lem :
        get (p.uuid w.ids) w.refresh_tokens ≡ none
        → rotate p old current
            (p.uuid w.ids)
            (exchanged p request w).id
            (record (counted_on (exchanging p request w)) {
              times = suc (exchanging p request w).times;
            })
          ≡ (ok tt, (after_rotation p request w current old))
    unfolding rotate time_now
    rotate_lem fresh = simp (
      delete_refresh_row_lem p healthy,
      delete_token_row_lem p healthy,
      insert_refresh_token_lem p healthy (renewed p request w old) _ (gone fresh),
    )
      where
        gone :
            get (p.uuid w.ids) w.refresh_tokens ≡ none
            → get (p.uuid w.ids) (delete current w.refresh_tokens) ≡ none
        gone h = ground (arith, get-delete current (p.uuid w.ids) w.refresh_tokens)

    pub exchange_lem :
        current ≢ ""
        → get (p.uuid (suc w.ids)) w.tokens ≡ none
        → get (p.uuid w.ids) w.refresh_tokens ≡ none
        → p.clock (suc w.times) ≤ old.expiration
        → create_access_and_refresh_tokens p request current w ≡ (
          ok ((exchanged p request w).id, p.uuid w.ids, (exchanged p request w).expiration),
          (after_rotation p request w current old),
        )
    unfolding renew_refresh_token time_now
    exchange_lem named fresh fresh' early = ground (
      arith,
      issue_renewed_lem named fresh (ok tt) (after_rotation p request w current old),
      load_refresh_token_lem p healthy current (exchanging p request w),
      rotate_lem fresh',
    )
