-- ===== src/Storage/Revocation/Branches.antt =====
-- What revocation does to each kind of token, and what the end of a session removes.
use oidc_test_idp.Prelude.{
  String, ◌==◌, eq_iff, ◌≡◌, ◌≢◌, Option, none, some, arith, inl, inr, Option-cases, if◌then◌else◌,
}
use oidc_test_idp.Table.{get, delete}
use oidc_test_idp.Platform.{Platform, Healthy}
use oidc_test_idp.Db.{TokenColumns, RefreshTokenColumns, Db, World, Result, wrong_client, ok, err}
use oidc_test_idp.Db.Statements.{counted_on, query_lem}
use oidc_test_idp.Storage.Tokens.{scan_refresh_token}
use oidc_test_idp.Storage.Tokens.Runs.{
  load_refresh_token_lem, delete_refresh_row_lem, delete_token_row_lem,
}
use oidc_test_idp.Storage.Revocation.{
  application_of_row, revoke_refresh_token, revoke_found, revoke_token,
}

module _ (p : Platform) (healthy : Healthy p) (token user_id client_id : String) (w : World) where
  abbrev after : Result (Unit {0}) × World
  after = revoke_token p token user_id client_id w

  module _ (row : TokenColumns) (found : get token w.tokens ≡ some row) where
    -- An access token of the client is deleted, and nothing else changes.
    pub revoke_access :
        row.application_id ≡ client_id
        → (after.0 ≡ ok tt) × (after.1.db ≡ record w.db { tokens = delete token w.tokens })
    unfolding revoke_token revoke_found
    revoke_access mine = ground (
      arith,
      query_lem p healthy (application_of_row token) w,
      eq_iff row.application_id client_id,
      delete_token_row_lem p healthy token (counted_on w),
    )

    -- Another client's access token is refused, and the database stays as it was.
    pub revoke_access_foreign :
        row.application_id ≢ client_id → (after.0 ≡ err wrong_client) × (after.1.db ≡ w.db)
    unfolding revoke_token revoke_found
    revoke_access_foreign theirs = ground (
      arith,
      query_lem p healthy (application_of_row token) w,
      eq_iff row.application_id client_id,
    )

  module _ (absent : get token w.tokens ≡ none) where
    -- A text that is no token at all is revoked with success, and the database stays as it was.
    pub revoke_unknown : get token w.refresh_tokens ≡ none → (after.0 ≡ ok tt) × (after.1.db ≡ w.db)
    unfolding revoke_token revoke_found revoke_refresh_token
    revoke_unknown absent' = ground (
      arith,
      query_lem p healthy (application_of_row token) w,
      load_refresh_token_lem p healthy token (counted_on w),
    )

    module _ (row : RefreshTokenColumns) (found : get token w.refresh_tokens ≡ some row) where
      -- A refresh token of the client is deleted with its access token, and nothing else changes.
      pub revoke_refresh :
          row.application_id ≡ client_id
          → (after.0 ≡ ok tt)
            × (after.1.db ≡ record w.db {
              refresh_tokens = delete token w.refresh_tokens;
              tokens = delete row.access_token w.tokens;
            })
      unfolding revoke_token revoke_found revoke_refresh_token scan_refresh_token
      revoke_refresh mine = ground (
        arith,
        query_lem p healthy (application_of_row token) w,
        load_refresh_token_lem p healthy token (counted_on w),
        eq_iff row.application_id client_id,
        delete_refresh_row_lem p healthy token (counted_on (counted_on w)),
        delete_token_row_lem p healthy row.access_token
            (record (counted_on (counted_on (counted_on w))) {
              db = record w.db { refresh_tokens = delete token w.refresh_tokens };
            }),
      )

      -- Another client's refresh token is refused, and the database stays as it was.
      pub revoke_refresh_foreign :
          row.application_id ≢ client_id → (after.0 ≡ err wrong_client) × (after.1.db ≡ w.db)
      unfolding revoke_token revoke_found revoke_refresh_token scan_refresh_token
      revoke_refresh_foreign theirs = ground (
        arith,
        query_lem p healthy (application_of_row token) w,
        load_refresh_token_lem p healthy token (counted_on w),
        eq_iff row.application_id client_id,
      )

-- What revoking a token promises, from the row of the access token and of the refresh token with
-- that id: the result and the database.
abbrev pub revocation :
    String → String → Option TokenColumns → Option RefreshTokenColumns → Db → Result (Unit {0}) × Db
revocation token client_id (some row) refresh d =
    if row.application_id == client_id
    then (ok tt, record d { tokens = delete token d.tokens })
    else (err wrong_client, d)
revocation token client_id none (some row) d =
    if row.application_id == client_id
    then (
      ok tt,
      record d {
        refresh_tokens = delete token d.refresh_tokens;
        tokens = delete row.access_token d.tokens;
      },
    )
    else (err wrong_client, d)
revocation token client_id none none d = (ok tt, d)

-- While the driver works, RevokeToken does what the specification says: it deletes an access token
-- of the client, or a refresh token of the client with its access token; it refuses a token of
-- another client and changes nothing; it succeeds on an unknown token and changes nothing.
pub revoke_token-eq-revocation :
    (p : Platform)
    → Healthy p
    → (token user_id client_id : String) (w : World)
    → ((revoke_token p token user_id client_id w).0
        ≡ (revocation token client_id (get token w.tokens) (get token w.refresh_tokens) w.db).0)
      × ((revoke_token p token user_id client_id w).1.db
          ≡ (revocation token client_id (get token w.tokens) (get token w.refresh_tokens) w.db).1)
revoke_token-eq-revocation p healthy token user_id client_id w =
    elim (Option-cases (get token w.tokens)) [
      | inr (row, e) ↦ ground (
        arith,
        e,
        eq_iff row.application_id client_id,
        revoke_access p healthy token user_id client_id w row e,
        revoke_access_foreign p healthy token user_id client_id w row e,
      )
      | inl e ↦ elim (Option-cases (get token w.refresh_tokens)) [
        | inr (row, f) ↦ ground (
          arith,
          e,
          f,
          eq_iff row.application_id client_id,
          revoke_refresh p healthy token user_id client_id w e row f,
          revoke_refresh_foreign p healthy token user_id client_id w e row f,
        )
        | inl f ↦ ground (arith, e, f, revoke_unknown p healthy token user_id client_id w e f)
      ]
    ]
