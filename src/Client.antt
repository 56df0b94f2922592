-- ===== src/Client.antt =====
-- internal/client: the local store, encryption and synchronisation of the client.
pub mod Items
pub mod LocalRows
pub mod Device
pub mod LocalStore
pub mod Crypto
pub mod SyncStore
pub mod Service
pub mod Api
pub mod Sync
pub mod Ui
pub mod Flags
pub mod Commands
pub mod Http
pub mod TokenStore
pub mod ParseMeta
