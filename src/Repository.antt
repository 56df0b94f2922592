-- ===== src/Repository.antt =====
-- internal/repository: the stores of users and secrets.
pub mod Secrets
pub mod Server
pub mod PostgresSecrets
pub mod Users
pub mod Memory
pub mod PostgresUsers
