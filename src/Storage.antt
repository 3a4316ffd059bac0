-- ===== src/Storage.antt =====
-- internal/storage/storage.go: the `op.Storage` that the OpenID provider calls.
pub mod Assertions
pub mod AuthRequests
pub mod Tokens
pub mod Revocation
pub mod Device
pub mod Claims
pub mod Keys
pub mod Sound
