-- ===== src/Service.antt =====
-- internal/service: the business logic of secrets and of synchronisation.
pub mod Secrets
pub mod Sync
pub mod Isolation
pub mod Postgres
