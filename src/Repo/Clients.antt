-- ===== src/Repo/Clients.antt =====
-- Clients of internal/storage/repo.go.
pub mod RoundTrip
pub mod Runs
use oidc_test_idp.Prelude.{String, ◌==◌, Bool, some, List, [], ◌∷◌, if◌then◌else◌, is_nonzero}
use oidc_test_idp.Table
use oidc_test_idp.Table.{Table}
use oidc_test_idp.Models.{Client, OpClient, as_op_client, seconds}
use oidc_test_idp.Platform.{Platform}
use oidc_test_idp.Db.{
  json_marshal, ClientRow, Db, Error, no_rows, not_found, client_not_found, invalid_secret,
  wrong_service_user, Result, ok, err, M, ◌>>=◌, pure, raise, attempt, or_error, query, exec,
  json_strings, json_object, bool_int,
}

unfoldable pub or_json_empty : String → String
or_json_empty s = if s == "" then "{}" else s

-- A row that is found is scanned; `sql.ErrNoRows` becomes `ErrNotFound`.
abbrev pub missing_row : {A : Type 0} → Result A → M A
missing_row (ok a) = pure a
missing_row (err no_rows) = raise not_found
missing_row (err e) = raise e

module _ (p : Platform) where
  unfoldable pub scan_client : String → ClientRow → Client
  unfolding json_strings json_object seconds
  scan_client id row = record {
    id = id;
    secret = row.secret;
    redirect_uri_list = json_strings p row.redirect_uris;
    post_logout_redirect_uri_list = json_strings p row.post_logout_redirect_uris;
    app_type = row.application_type;
    auth_method_value = row.auth_method;
    response_type_list = json_strings p row.response_types;
    grant_type_list = json_strings p row.grant_types;
    access_token_type_value = row.access_token_type;
    dev_mode_flag = is_nonzero row.dev_mode;
    id_token_userinfo_claims_assert = is_nonzero row.id_token_userinfo_claims_assertion;
    clock_skew_duration = seconds row.clock_skew_seconds;
    access_token_lifetime = seconds row.access_token_lifetime_seconds;
    id_token_lifetime_duration = seconds row.id_token_lifetime_seconds;
    refresh_token_lifetime = seconds row.refresh_token_lifetime_seconds;
    redirect_uri_glob_list = json_strings p row.redirect_uri_globs;
    post_logout_redirect_glob_list = json_strings p row.post_logout_redirect_uri_globs;
    require_consent = is_nonzero row.require_consent;
    custom_claims = json_object p row.custom_claims;
    force_error = row.force_error;
    latency_ms = row.latency_ms;
    jwks = row.jwks;
    id_token_sign_alg = row.id_token_sign_alg;
  }

  unfoldable pub get_client : String → M Client
  unfolding scan_client
  get_client id = do
    r ← attempt (query p (λ d. Table.get id d.clients))
    row ← missing_row r
    pure (scan_client id row)

  unfoldable pub scan_clients : Table ClientRow → List Client
  unfolding scan_client
  scan_clients [] = []
  scan_clients ((id, row) ∷ t) = scan_client id row ∷ scan_clients t

  -- `sorted` is the order that the database gives to the rows for `ORDER BY id`.
  unfoldable pub list_clients : (Table ClientRow → Table ClientRow) → M (List Client)
  unfolding scan_clients
  list_clients sorted = do rows ← query p (λ d. some (sorted d.clients)); pure (scan_clients rows)

  -- The columns that `SaveClient` writes.
  unfoldable pub client_row : Client → ClientRow
  unfolding or_json_empty
  client_row c = record {
    secret = c.secret;
    redirect_uris = p.marshal_strings c.redirect_uri_list;
    post_logout_redirect_uris = p.marshal_strings c.post_logout_redirect_uri_list;
    application_type = c.app_type;
    auth_method = c.auth_method_value;
    response_types = p.marshal_strings c.response_type_list;
    grant_types = p.marshal_strings c.grant_type_list;
    access_token_type = c.access_token_type_value;
    dev_mode = bool_int c.dev_mode_flag;
    id_token_userinfo_claims_assertion = bool_int c.id_token_userinfo_claims_assert;
    clock_skew_seconds = p.whole_seconds c.clock_skew_duration;
    access_token_lifetime_seconds = p.whole_seconds c.access_token_lifetime;
    id_token_lifetime_seconds = p.whole_seconds c.id_token_lifetime_duration;
    refresh_token_lifetime_seconds = p.whole_seconds c.refresh_token_lifetime;
    redirect_uri_globs = p.marshal_strings c.redirect_uri_glob_list;
    post_logout_redirect_uri_globs = p.marshal_strings c.post_logout_redirect_glob_list;
    require_consent = bool_int c.require_consent;
    custom_claims = json_marshal (p.marshal_object c.custom_claims);
    force_error = c.force_error;
    latency_ms = c.latency_ms;
    jwks = or_json_empty c.jwks;
    id_token_sign_alg = c.id_token_sign_alg;
  }

  unfoldable pub save_client : Client → M Unit
  unfolding client_row
  save_client c =
      exec p (λ d. some (record d { clients = Table.put c.id (client_row c) d.clients }))

  unfoldable pub delete_client : String → M Unit
  delete_client id = exec p (λ d. some (record d { clients = Table.delete id d.clients }))

  -- `Storage.GetClientByClientID`
  unfoldable pub get_client_by_client_id : String → M OpClient
  unfolding as_op_client
  get_client_by_client_id id = do
    c ← or_error client_not_found (get_client id)
    pure (as_op_client c)

  -- `Storage.AuthorizeClientIDSecret`
  unfoldable pub authorize_client_id_secret : String → String → M Unit
  authorize_client_id_secret id secret = do
    c ← or_error client_not_found (get_client id)
    if c.secret == secret then pure tt else raise invalid_secret

  -- `Storage.ClientCredentials`
  unfoldable pub client_credentials : String → String → M OpClient
  unfolding as_op_client
  client_credentials id secret = do
    c ← or_error wrong_service_user (get_client id)
    if c.secret == secret then pure (as_op_client c) else raise wrong_service_user
