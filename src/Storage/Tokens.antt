-- ===== src/Storage/Tokens.antt =====
-- Access and refresh tokens of internal/storage/storage.go.
pub mod Runs
pub mod Issue
pub mod Rotation
pub mod SingleUse
use oidc_test_idp.Prelude.{
  ℕ, ◌+◌, ◌*◌, String, ◌==◌, ltb, Option, none, some, List, [], ◌∷◌, if◌then◌else◌, is_positive,
  pos_part,
}
use oidc_test_idp.Table
use oidc_test_idp.Models.{Client, AuthRequest, get_amr, RefreshToken, TokenRow, second}
use oidc_test_idp.Platform.{Platform}
use oidc_test_idp.Db.{
  TokenColumns, RefreshTokenColumns, Db, Result, ok, err, invalid_refresh_token,
  expired_refresh_token, M, ◌>>=◌, ◌>>◌, pure, raise, attempt, or_error, query, exec, new_string,
  time_now, time_str, parse_time, json_strings,
}
use oidc_test_idp.Repo.Clients.{get_client}

-- The requests behind `op.TokenRequest`. `device` and `other` stand for the library's own types,
-- which the code reads through the interface alone: subject, audience and scopes.
pub data TokenRequest : Type 0 where
  auth : AuthRequest → TokenRequest
  refresh : RefreshToken → TokenRequest
  -- `op.TokenExchangeRequest`: its client id too.
  exchange : String → String → List String → List String → TokenRequest
  -- `*oidc.JWTTokenRequest`
  jwt : String → List String → List String → TokenRequest
  other : String → List String → List String → TokenRequest

abbrev pub subject_of : TokenRequest → String
subject_of (auth r) = r.user_id
subject_of (refresh r) = r.user_id
subject_of (exchange client subject audience scopes) = subject
subject_of (jwt subject audience scopes) = subject
subject_of (other subject audience scopes) = subject

abbrev pub audience_of : TokenRequest → List String
audience_of (auth r) = r.application_id ∷ []
audience_of (refresh r) = r.audience
audience_of (exchange client subject audience scopes) = audience
audience_of (jwt subject audience scopes) = audience
audience_of (other subject audience scopes) = audience

abbrev pub scopes_of : TokenRequest → List String
scopes_of (auth r) = r.scopes
scopes_of (refresh r) = r.scopes
scopes_of (exchange client subject audience scopes) = scopes
scopes_of (jwt subject audience scopes) = scopes
scopes_of (other subject audience scopes) = scopes

-- The type switch of `CreateAccessToken`.
unfoldable pub application_of : TokenRequest → String
application_of (auth r) = r.application_id
application_of (exchange client subject audience scopes) = client
application_of (jwt subject (aud ∷ audience) scopes) = aud
application_of _ = ""

-- `getInfoFromRequest`: client id, auth time and AMR.
unfoldable pub get_info_from_request : TokenRequest → String × ℕ × List String
unfolding get_amr
get_info_from_request (auth r) = (r.application_id, r.auth_time, get_amr r)
get_info_from_request (refresh r) = (r.application_id, r.auth_time, r.amr)
get_info_from_request _ = ("", 0, [])

abbrev pub minutes_5 : ℕ
minutes_5 = 300 * second

abbrev pub hours_5 : ℕ
hours_5 = 18000 * second

-- `c.AccessTokenLifetime` where it is positive, or else 5 minutes.
unfoldable pub access_lifetime_of : Result Client → ℕ
access_lifetime_of (ok c) =
    if is_positive c.access_token_lifetime then pos_part c.access_token_lifetime else minutes_5
access_lifetime_of (err _) = minutes_5

unfoldable pub refresh_lifetime_of : Result Client → ℕ
refresh_lifetime_of (ok c) =
    if is_positive c.refresh_token_lifetime then pos_part c.refresh_token_lifetime else hours_5
refresh_lifetime_of (err _) = hours_5

abbrev pub set_tokens : Db → Option (Table.Table TokenColumns) → Option Db
set_tokens d none = none
set_tokens d (some tokens) = some (record d { tokens = tokens })

abbrev pub set_refresh_tokens : Db → Option (Table.Table RefreshTokenColumns) → Option Db
set_refresh_tokens d none = none
set_refresh_tokens d (some tokens) = some (record d { refresh_tokens = tokens })

module _ (p : Platform) where
  unfoldable pub token_columns : TokenRow → TokenColumns
  unfolding time_str
  token_columns t = record {
    application_id = t.application_id;
    subject = t.subject;
    refresh_token_id = t.refresh_token_id;
    audience = p.marshal_strings t.audience;
    scopes = p.marshal_strings t.scopes;
    expiration = time_str p t.expiration;
  }

  unfoldable pub scan_token : String → TokenColumns → TokenRow
  unfolding json_strings parse_time
  scan_token id row = record {
    id = id;
    application_id = row.application_id;
    subject = row.subject;
    refresh_token_id = row.refresh_token_id;
    audience = json_strings p row.audience;
    scopes = json_strings p row.scopes;
    expiration = parse_time p row.expiration;
  }

  unfoldable pub load_token : String → M TokenRow
  unfolding scan_token
  load_token id = do row ← query p (λ d. Table.get id d.tokens); pure (scan_token id row)

  unfoldable pub access_token_lifetime : String → M ℕ
  unfolding access_lifetime_of
  access_token_lifetime client_id = do
    c ← attempt (get_client p client_id)
    pure (access_lifetime_of c)

  -- Go evaluates `time.Now()` before the argument of its method `Add`.
  unfoldable pub access_token : String → String → String → List String → List String → M TokenRow
  unfolding token_columns
  access_token application_id refresh_token_id subject audience scopes = do
    id ← new_string p
    now ← time_now p
    lifetime ← access_token_lifetime application_id
    let t : TokenRow = record {
      id = id;
      application_id = application_id;
      subject = subject;
      refresh_token_id = refresh_token_id;
      audience = audience;
      scopes = scopes;
      expiration = now + lifetime;
    }
    exec p (λ d. set_tokens d (Table.insert id (token_columns t) d.tokens))
    pure t

  -- The id of the new access token, and when it expires.
  unfoldable pub create_access_token : TokenRequest → M (String × ℕ)
  unfolding application_of
  create_access_token request = do
    t ←
        access_token (application_of request) "" (subject_of request) (audience_of request)
          (scopes_of request)
    pure (t.id, t.expiration)

  unfoldable pub refresh_columns : RefreshToken → RefreshTokenColumns
  unfolding time_str
  refresh_columns t = record {
    token = t.token;
    auth_time = time_str p t.auth_time;
    amr = p.marshal_strings t.amr;
    audience = p.marshal_strings t.audience;
    user_id = t.user_id;
    application_id = t.application_id;
    expiration = time_str p t.expiration;
    scopes = p.marshal_strings t.scopes;
    access_token = t.access_token;
  }

  unfoldable pub scan_refresh_token : String → RefreshTokenColumns → RefreshToken
  unfolding json_strings parse_time
  scan_refresh_token id row = record {
    id = id;
    token = row.token;
    auth_time = parse_time p row.auth_time;
    amr = json_strings p row.amr;
    audience = json_strings p row.audience;
    user_id = row.user_id;
    application_id = row.application_id;
    expiration = parse_time p row.expiration;
    scopes = json_strings p row.scopes;
    access_token = row.access_token;
  }

  unfoldable pub insert_refresh_token : RefreshToken → M Unit
  unfolding refresh_columns
  insert_refresh_token t =
      exec p (λ d. set_refresh_tokens d (Table.insert t.id (refresh_columns t) d.refresh_tokens))

  unfoldable pub create_refresh_token : TokenRow → List String → ℕ → M String
  unfolding refresh_lifetime_of
  create_refresh_token t amr auth_time = do
    c ← attempt (get_client p t.application_id)
    now ← time_now p
    insert_refresh_token (record {
      id = t.refresh_token_id;
      token = t.refresh_token_id;
      auth_time = auth_time;
      amr = amr;
      audience = t.audience;
      user_id = t.subject;
      application_id = t.application_id;
      expiration = now + refresh_lifetime_of c;
      scopes = t.scopes;
      access_token = t.id;
    })
    pure t.refresh_token_id

  unfoldable pub load_refresh_token : String → M RefreshToken
  unfolding scan_refresh_token
  load_refresh_token token = do
    row ← query p (λ d. Table.get token d.refresh_tokens)
    pure (scan_refresh_token token row)

  unfoldable pub delete_refresh_row : String → M Unit
  delete_refresh_row id =
      exec p (λ d. some (record d { refresh_tokens = Table.delete id d.refresh_tokens }))

  unfoldable pub delete_token_row : String → M Unit
  delete_token_row id = exec p (λ d. some (record d { tokens = Table.delete id d.tokens }))

  -- Rotation: the old refresh token and its access token go, the renewed one comes.
  unfoldable pub rotate : RefreshToken → String → String → String → M Unit
  rotate rt current new_refresh new_access = do
    delete_refresh_row current
    delete_token_row rt.access_token
    now ← time_now p
    insert_refresh_token (record rt {
      id = new_refresh;
      token = new_refresh;
      expiration = now + hours_5;
      access_token = new_access;
    })

  unfoldable pub renew_refresh_token : String → String → String → M Unit
  renew_refresh_token current new_refresh new_access = do
    rt ← or_error invalid_refresh_token (load_refresh_token current)
    now ← time_now p
    if ltb rt.expiration now
        then raise expired_refresh_token
        else rotate rt current new_refresh new_access

  -- The access token's id, the refresh token, and when the access token expires.
  unfoldable pub issue_first : TokenRequest → M (String × String × ℕ)
  unfolding get_info_from_request
  issue_first request = do
    let info = get_info_from_request request
    refresh_id ← new_string p
    t ←
        access_token info.0 refresh_id (subject_of request) (audience_of request)
          (scopes_of request)
    token ← create_refresh_token t info.2 info.1
    pure (t.id, token, t.expiration)

  unfoldable pub issue_renewed : TokenRequest → String → M (String × String × ℕ)
  unfolding get_info_from_request
  issue_renewed request current = do
    let info = get_info_from_request request
    new_refresh ← new_string p
    t ←
        access_token info.0 new_refresh (subject_of request) (audience_of request)
          (scopes_of request)
    renew_refresh_token current new_refresh t.id
    pure (t.id, new_refresh, t.expiration)

  unfoldable pub create_access_and_refresh_tokens : TokenRequest → String → M (String × String × ℕ)
  create_access_and_refresh_tokens request current =
      if current == "" then issue_first request else issue_renewed request current

  unfoldable pub token_request_by_refresh_token : String → M TokenRequest
  token_request_by_refresh_token token = do
    rt ← or_error invalid_refresh_token (load_refresh_token token)
    pure (refresh rt)

  -- The user's id and the token's id.
  unfoldable pub get_refresh_token_info : String → String → M (String × String)
  get_refresh_token_info client_id token = do
    rt ← or_error invalid_refresh_token (load_refresh_token token)
    pure (rt.user_id, rt.id)
