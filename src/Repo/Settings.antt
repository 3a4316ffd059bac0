-- ===== src/Repo/Settings.antt =====
-- Settings and counts of internal/storage/repo.go.
use oidc_test_idp.Prelude.{ℕ, String, some, length}
use oidc_test_idp.Table
use oidc_test_idp.Platform.{Platform}
use oidc_test_idp.Db.{Result, ok, err, M, ◌>>=◌, pure, attempt, query, exec}

abbrev setting_or : String → Result String → M String
setting_or def (ok v) = pure v
setting_or def (err _) = pure def

module _ (p : Platform) where
  -- It has no error result: every failure gives the default.
  unfoldable pub get_setting : String → String → M String
  get_setting key def = do r ← attempt (query p (λ d. Table.get key d.settings)); setting_or def r

  unfoldable pub set_setting : String → String → M Unit
  set_setting key value =
      exec p (λ d. some (record d { settings = Table.put key value d.settings }))

  -- The numbers of clients and of users.
  unfoldable pub count_config : M (ℕ × ℕ)
  count_config = do
    clients ← query p (λ d. some (length d.clients))
    users ← query p (λ d. some (length d.users))
    pure (clients, users)
