-- ===== src/Storage/Sound.antt =====
-- A predicate on databases: what the writing operations of internal/storage are to keep.
pub mod Kept
pub mod Operations
pub mod Tokens
pub mod Requests
pub mod Reach
use oidc_test_idp.Prelude.{String, ◌≡◌, true, some, Bool}
use oidc_test_idp.Table.{get}
use oidc_test_idp.Table.Unique.{HasUnique}
use oidc_test_idp.Models.{AuthRequest}
use oidc_test_idp.Platform.{Platform}
use oidc_test_idp.Db.{UserRow, DeviceCodeRow, SigningKeyRow, AuthRequestRow, Db}
use oidc_test_idp.Storage.Keys.{is_supported_alg}

-- No two devices share a user code and no two users a name; the JSON of an auth request's row is
-- that of a request with the row's id; every signing key has a supported algorithm.
pub record IsSound (p : Platform) (d : Db) : Type 0 where
  pub codes : HasUnique (λ (r : DeviceCodeRow). r.user_code) d.device_codes
  pub names : HasUnique (λ (r : UserRow). r.username) d.users
  pub keyed :
      (id : String) (row : AuthRequestRow) (req : AuthRequest)
      → get id d.auth_requests ≡ some row
      → p.unmarshal_request row.data_text ≡ some req
      → req.id ≡ id
  pub algorithms :
      (id : String) (row : SigningKeyRow)
      → get id d.signing_keys ≡ some row
      → is_supported_alg row.algorithm ≡ true
