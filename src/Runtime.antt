-- ===== src/Runtime.antt =====
-- The Hermes runtime: the modules under src-tauri/src/runtime.
pub mod Dto
pub mod Storage
pub mod Interfaces
pub mod Requests
pub mod Polls
pub mod Admission
pub mod Resources
pub mod Runs
pub mod Pages
pub mod Bounded
pub mod Fences
pub mod Published
pub mod Owners
pub mod Interrupted
