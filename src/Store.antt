-- ===== src/Store.antt =====
-- The SQLite store of the desktop: src-tauri/src/store.rs, with the tables of
-- src-tauri/src/runtime/storage.rs.
pub mod Tables
pub mod Rows
pub mod Queries
pub mod Chats
pub mod Invariant
pub mod Outcomes
pub mod Preservation
pub mod Operations
pub mod Requests
pub mod Isolation
pub mod Reuse
