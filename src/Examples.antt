-- ===== src/Examples.antt =====
-- Concrete runs of the models of src-tauri/src, at which the theorems are applied.
pub mod Data
pub mod Grants
pub mod Attempts
pub mod Chats
pub mod RunData
pub mod Runs
pub mod Replies
pub mod Browser
pub mod Core
pub mod Interfaces
pub mod Connectors
