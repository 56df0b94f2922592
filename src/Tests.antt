-- ===== src/Tests.antt =====
-- The theorems applied to concrete states.
mod Server
mod Client
mod Auth
mod Http
mod Handlers
mod Config
mod Storage
mod Sessions
mod Ui
mod Commands
mod Exchange
mod Users
