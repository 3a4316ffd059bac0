-- ===== src/Admin.antt =====
-- internal/admin/admin.go: the open admin pages over the store.
-- Forms has the helpers on texts; Pages the pages that only read; Users, Clients and Settings the
-- handlers that write.
pub mod Forms
pub mod RoundTrip
pub mod Pages
pub mod Users
pub mod Clients
pub mod Settings
use oidc_test_idp.Prelude.{ℕ, String, List, Option, ℤ}
use oidc_test_idp.Models.{Client, User}
use oidc_test_idp.Db.{Error}
use oidc_test_idp.Reqlog.{Entry}
use oidc_test_idp.Storage.Keys.Start.{KeyInfo}

-- The message of a page: none, or what was refused. An error carries its own text.
pub data Notice : Type 0 where
  no_notice : Notice
  invalid_override invalid_claims invalid_conditional_claims : Notice
  invalid_custom_claims client_id_required invalid_jwks : Notice
  unsupported_signing_alg unsupported_alg : String → Notice
  rotation_failed failed_with : Error → Notice

-- The user form of an edited user: the user, the claims, the rules and the amr as texts.
pub record UserForm : Type 0 where
  pub edit : Option User
  pub claims_text : String
  pub conditional_text : String
  pub amr_text : String

pub record ClientForm : Type 0 where
  pub edit : Option Client
  pub redirect_uris : String
  pub post_logout : String
  pub response_types : String
  pub grant_types : String
  pub at_ttl : ℤ
  pub rt_ttl : ℤ
  pub idt_ttl : ℤ
  pub custom_claims_text : String
  pub jwks : String

-- What a handler answers. A page carries its status and what it shows of the state.
pub data Answer : Type 0 where
  -- `http.Error` with the status.
  failed : ℕ → Answer
  -- 303 See Other.
  redirected : String → Answer
  logs_page : List Entry → Answer
  -- The numbers of users and clients, and the issuer.
  dashboard_page : ℕ → ℕ → String → Answer
  -- The status, the override and the message.
  settings_page : ℕ → String → Notice → Answer
  -- The status, the keys, the id of the current key and the message.
  keys_page : ℕ → List KeyInfo → String → Notice → Answer
  users_page : ℕ → List User → UserForm → Notice → Answer
  clients_page : ℕ → List Client → ClientForm → Notice → Answer
