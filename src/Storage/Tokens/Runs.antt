-- ===== src/Storage/Tokens/Runs.antt =====
-- What the actions on tokens come to while the driver works.
use oidc_test_idp.Prelude.{ℕ, suc, ◌+◌, ◌<◌, String, ◌≡◌, Option, none, some, List, arith}
use oidc_test_idp.Table.{get, put, delete, insert-put}
use oidc_test_idp.Models.{RefreshToken, TokenRow}
use oidc_test_idp.Platform.{Platform, RoundTrips, Healthy, year_10000}
use oidc_test_idp.Db.{
  TokenColumns, RefreshTokenColumns, World, no_rows, Result, ok, err, time_now, new_string,
}
use oidc_test_idp.Db.Statements.{
  counted_on, query_lem, exec_lem, parse_time-time_str, json_strings-marshal,
}
use oidc_test_idp.Repo.Clients.Runs.{client_of, get_client_lem}
use oidc_test_idp.Storage.Tokens.{
  token_columns, scan_token, load_token, access_lifetime_of, access_token_lifetime, access_token,
  refresh_columns, scan_refresh_token, insert_refresh_token, load_refresh_token, delete_refresh_row,
  delete_token_row,
}

abbrev pub token_of : Platform → String → Option TokenColumns → Result TokenRow
token_of p id none = err no_rows
token_of p id (some row) = ok (scan_token p id row)

abbrev pub refresh_token_of : Platform → String → Option RefreshTokenColumns → Result RefreshToken
refresh_token_of p id none = err no_rows
refresh_token_of p id (some row) = ok (scan_refresh_token p id row)

-- How long an access token of the client lasts.
abbrev pub lifetime : Platform → World → String → ℕ
lifetime p w client_id = access_lifetime_of (client_of p client_id (get client_id w.clients))

-- The access token that is issued at a world.
abbrev pub minted :
    Platform → World → String → String → String → List String → List String → TokenRow
minted p w application_id refresh_token_id subject audience scopes = record {
  id = p.uuid w.ids;
  application_id = application_id;
  subject = subject;
  refresh_token_id = refresh_token_id;
  audience = audience;
  scopes = scopes;
  expiration = p.clock w.times + lifetime p w application_id;
}

-- The world once the access token is issued.
abbrev pub after_minting : Platform → World → TokenRow → World
after_minting p w t = record w {
  db = record w.db { tokens = put t.id (token_columns p t) w.tokens };
  statements = suc (suc w.statements);
  ids = suc w.ids;
  times = suc w.times;
}

module _ (p : Platform) (healthy : Healthy p) where
  pub load_token_lem :
      (id : String) (w : World)
      → load_token p id w ≡ (token_of p id (get id w.tokens), counted_on w)
  unfolding load_token
  load_token_lem id w = ground (arith, query_lem p healthy (λ d. get id d.tokens) w)

  pub load_refresh_token_lem :
      (id : String) (w : World)
      → load_refresh_token p id w ≡ (refresh_token_of p id (get id w.refresh_tokens), counted_on w)
  unfolding load_refresh_token
  load_refresh_token_lem id w = ground (arith, query_lem p healthy (λ d. get id d.refresh_tokens) w)

  pub access_token_lem :
      (application_id refresh_token_id subject : String) (audience scopes : List String) (w : World)
      → get (p.uuid w.ids) w.tokens ≡ none
      → access_token p application_id refresh_token_id subject audience scopes w ≡ (
        ok (minted p w application_id refresh_token_id subject audience scopes),
        after_minting p w (minted p w application_id refresh_token_id subject audience scopes),
      )
  unfolding access_token new_string time_now access_token_lifetime
  access_token_lem application_id refresh_token_id subject audience scopes w fresh =
      simp
        (get_client_lem p healthy, exec_lem p healthy, insert-put (p.uuid w.ids) _ w.tokens fresh)

  pub insert_refresh_token_lem :
      (t : RefreshToken) (w : World)
      → get t.id w.refresh_tokens ≡ none
      → insert_refresh_token p t w ≡ (
        ok tt,
        record (counted_on w) {
          db = record w.db { refresh_tokens = put t.id (refresh_columns p t) w.refresh_tokens };
        },
      )
  unfolding insert_refresh_token
  insert_refresh_token_lem t w fresh =
      simp (exec_lem p healthy, insert-put t.id _ w.refresh_tokens fresh)

  pub delete_refresh_row_lem :
      (id : String) (w : World)
      → delete_refresh_row p id w ≡ (
        ok tt,
        record (counted_on w) { db = record w.db { refresh_tokens = delete id w.refresh_tokens } },
      )
  unfolding delete_refresh_row
  delete_refresh_row_lem id w = simp (exec_lem p healthy)

  pub delete_token_row_lem :
      (id : String) (w : World)
      → delete_token_row p id w
        ≡ (ok tt, record (counted_on w) { db = record w.db { tokens = delete id w.tokens } })
  unfolding delete_token_row
  delete_token_row_lem id w = simp (exec_lem p healthy)

module _ (p : Platform) (trips : RoundTrips p) where
  -- An access token's row reads back as the token.
  pub scan_token-token_columns :
      (t : TokenRow) → t.expiration < year_10000 → scan_token p t.id (token_columns p t) ≡ t
  unfolding scan_token token_columns
  scan_token-token_columns t h =
      simp (json_strings-marshal p trips, parse_time-time_str p trips t.expiration h)

  -- A refresh token's row reads back as the token.
  pub scan_refresh_token-refresh_columns :
      (t : RefreshToken)
      → t.auth_time < year_10000
      → t.expiration < year_10000
      → scan_refresh_token p t.id (refresh_columns p t) ≡ t
  unfolding scan_refresh_token refresh_columns
  scan_refresh_token-refresh_columns t h k = simp (
    json_strings-marshal p trips,
    parse_time-time_str p trips t.auth_time h,
    parse_time-time_str p trips t.expiration k,
  )
