-- ===== src/Connectors.antt =====
-- The Google connectors: src-tauri/src/connectors.rs and the modules under src-tauri/src/connectors.
pub mod Status
pub mod Grants
pub mod Loopback
pub mod Lifecycle
pub mod Store
pub mod Scopes
pub mod Confirmed
pub mod Commands
pub mod Commits
pub mod Published
pub mod Renewed
