-- ===== src/Connectors/Grants.antt =====
-- Ephemeral read grants: src-tauri/src/connectors/grants.rs.
pub mod Types
pub mod Requests
pub mod Table
pub mod Access
pub mod Invariant
pub mod Ending
pub mod Preservation
pub mod Operations
pub mod Expiry
pub mod Revocation
pub mod Fences
pub mod Reads
