-- ===== src/Repo.antt =====
-- internal/storage/repo.go: clients, users and settings in the database.
pub mod Clients
pub mod Users
pub mod Settings
