-- ===== src/Storage/Revocation.antt =====
-- Revocation and the end of a session, of internal/storage/storage.go.
use oidc_test_idp.Prelude.{String, ◌==◌, ◌&&◌, Option, some, if◌then◌else◌}
pub mod Branches
pub mod Sessions
use mathlib.Core.Option
use oidc_test_idp.Table
use oidc_test_idp.Models.{RefreshToken}
use oidc_test_idp.Platform.{Platform}
use oidc_test_idp.Db.{
  Db, Result, ok, err, wrong_client, M, ◌>>=◌, ◌>>◌, pure, raise, attempt, query, exec,
}
use oidc_test_idp.Storage.Tokens.{load_refresh_token, delete_refresh_row, delete_token_row}

-- `_, _ = s.db.conn.Exec(…)`: the error is dropped.
abbrev pub ignore : M Unit → M Unit
ignore m = attempt m >>= λ _. pure tt

-- `SELECT application_id FROM tokens WHERE id = ?`
abbrev pub application_of_row : String → Db → Option String
application_of_row token d = Option.map (λ r. r.application_id) (Table.get token d.tokens)

module _ (p : Platform) where
  unfoldable pub terminate_session : String → String → M Unit
  terminate_session user_id client_id = do
    exec p (λ d. some (record d {
      refresh_tokens =
          Table.delete_where (λ r. r.user_id == user_id && r.application_id == client_id)
            d.refresh_tokens;
    }))
    exec p (λ d. some (record d {
      tokens =
          Table.delete_where (λ r. r.subject == user_id && r.application_id == client_id) d.tokens;
    }))

  unfoldable pub revoke_refresh_token : String → Result RefreshToken → M Unit
  revoke_refresh_token client_id (err _) = pure tt
  revoke_refresh_token client_id (ok rt) =
      if rt.application_id == client_id
      then (do ignore (delete_refresh_row p rt.id); ignore (delete_token_row p rt.access_token))
      else raise wrong_client

  unfoldable pub revoke_found : String → String → Result String → M Unit
  revoke_found token client_id (ok app_id) =
      if app_id == client_id then ignore (delete_token_row p token) else raise wrong_client
  revoke_found token client_id (err _) = do
    rt ← attempt (load_refresh_token p token)
    revoke_refresh_token client_id rt

  -- The token is an access token's id, or else a refresh token. `user_id` is not read.
  unfoldable pub revoke_token : String → String → String → M Unit
  revoke_token token user_id client_id = do
    app_id ← attempt (query p (application_of_row token))
    revoke_found token client_id app_id
