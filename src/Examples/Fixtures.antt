-- ===== src/Examples/Fixtures.antt =====
-- The worlds of the examples: one client, one user, one pending auth request, one token of each
-- kind, and one device.
use oidc_test_idp.Prelude.{
  String, true, false, none, some, [], ◌∷◌, pos, ◌*◌, ◌==◌, ◌≡◌, ◌≢◌, eq_iff, arith,
}
use oidc_test_idp.Models.{Client, User, AuthRequest, RefreshToken, TokenRow, second}
use oidc_test_idp.Json.{text}
use oidc_test_idp.Http.{HttpRequest}
use oidc_test_idp.Db.{UserRow, DeviceCodeRow, Db, World}
use oidc_test_idp.Repo.Clients.{client_row}
use oidc_test_idp.Repo.Users.{user_row}
use oidc_test_idp.Storage.AuthRequests.{request_row}
use oidc_test_idp.Storage.Tokens.{token_columns, refresh_columns}
use oidc_test_idp.Sample.{sample}

abbrev pub shop : Client
shop = record {
  id = "shop";
  secret = "s";
  redirect_uri_list = "https://shop/cb" ∷ [];
  post_logout_redirect_uri_list = [];
  app_type = pos 0;
  auth_method_value = "client_secret_basic";
  response_type_list = "code" ∷ [];
  grant_type_list = "authorization_code" ∷ "password" ∷ [];
  access_token_type_value = pos 0;
  dev_mode_flag = false;
  id_token_userinfo_claims_assert = false;
  clock_skew_duration = pos 0;
  access_token_lifetime = pos (600 * second);
  id_token_lifetime_duration = pos (3600 * second);
  refresh_token_lifetime = pos 0;
  redirect_uri_glob_list = [];
  post_logout_redirect_glob_list = [];
  require_consent = false;
  custom_claims = ("tier", text "gold") ∷ [];
  force_error = "";
  latency_ms = pos 0;
  jwks = "{}";
  id_token_sign_alg = "";
}

abbrev pub alice : User
alice = record {
  id = "alice";
  subject = "";
  username = "al";
  email = "al@x";
  email_verified = true;
  phone = "";
  phone_verified = false;
  first_name = "Al";
  last_name = "Ice";
  preferred_language = "";
  is_admin = false;
  claims = ("tier", text "tin") ∷ [];
  conditional_claims =
      record { client_id = "shop"; scopes = "openid" ∷ []; claims = ("role", text "dev") ∷ [] }
      ∷ [];
  acr = "";
  amr = [];
}

abbrev pub pending : AuthRequest
pending = record {
  id = "req";
  creation_date = 1;
  application_id = "shop";
  callback_uri = "https://shop/cb";
  transfer_state = "st";
  prompt = [];
  ui_locales = [];
  login_hint = "";
  max_auth_age = none;
  user_id = "";
  scopes = "openid" ∷ [];
  response_type = "code";
  response_mode = "";
  nonce = "n";
  code_challenge = none;
  acr_value = "";
  amr_values = [];
  done = false;
  auth_time = 0;
}

abbrev pub old_refresh : RefreshToken
old_refresh = record {
  id = "r0";
  token = "r0";
  auth_time = 3;
  amr = "pwd" ∷ [];
  audience = "shop" ∷ [];
  user_id = "alice";
  application_id = "shop";
  expiration = 90;
  scopes = "openid" ∷ [];
  access_token = "t0";
}

abbrev pub old_access : TokenRow
old_access = record {
  id = "t0";
  application_id = "shop";
  subject = "alice";
  refresh_token_id = "r0";
  audience = "shop" ∷ [];
  scopes = "openid" ∷ [];
  expiration = 60;
}

abbrev pub empty_db : Db
empty_db = record {
  clients = [];
  users = [];
  signing_keys = [];
  settings = [];
  auth_requests = [];
  auth_codes = [];
  tokens = [];
  refresh_tokens = [];
  device_codes = [];
}

abbrev pub at_start : Db → World
at_start d = record { db = d; statements = 0; ids = 0; times = 0 }

abbrev pub alice_row : UserRow
alice_row = user_row sample alice

abbrev pub bob_row : UserRow
bob_row = record alice_row { subject = "alice"; username = "bob" }

abbrev pub session : World
session = at_start (record empty_db {
  clients = ("shop", client_row sample shop) ∷ [];
  users = ("alice", alice_row) ∷ [];
  tokens = ("t0", token_columns sample old_access) ∷ [];
  refresh_tokens = ("r0", refresh_columns sample old_refresh) ∷ [];
})

-- The text of the pending request, and the row that holds it.
abbrev pub request_text : AuthRequest → String
request_text r = elim (sample.marshal_request r) [ none ↦ "" | some s ↦ s ]

abbrev pub login : World
login = at_start (record empty_db {
  clients = ("shop", client_row sample shop) ∷ [];
  users = ("alice", alice_row) ∷ [];
  auth_requests = ("req", request_row sample (request_text pending) pending) ∷ [];
  auth_codes = ("code", "req") ∷ [];
})

-- The same with a client that wants consent.
abbrev pub consenting : World
consenting = at_start (record login.db {
  clients = ("shop", client_row sample (record shop { require_consent = true })) ∷ [];
})

abbrev pub device_row : DeviceCodeRow
device_row = record {
  user_code = "AB-CD";
  client_id = "tv";
  scopes = "[]";
  expires = "";
  subject = "";
  done = pos 0;
  denied = pos 0;
}

abbrev pub devices : World
devices = at_start (record empty_db {
  clients = ("tv", client_row sample (record shop { id = "tv" })) ∷ [];
  device_codes = ("dev", device_row) ∷ [];
})

-- Two texts that the test tells apart.
pub differ : (a b : String) → (a == b) ≡ false → a ≢ b
differ a b h e = ground (arith, eq_iff a b)

-- A request by its path, its query and its form.
abbrev pub visit : String → (String → String) → (String → String) → HttpRequest
visit path query form = record {
  method = "POST";
  path = path;
  query = query;
  basic_auth = none;
  parses = true;
  form = form;
  post_form = form;
}
