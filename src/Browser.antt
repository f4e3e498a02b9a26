-- ===== src/Browser.antt =====
-- The owned browser of src-tauri/src/browser.rs and src-tauri/src/browser/: addresses, the state of
-- the session, the windows' callbacks and the Chromium protocol fixture.
pub mod Addresses
pub mod Session
pub mod Actions
pub mod Events
pub mod Invariant
pub mod Generations
pub mod Navigation
pub mod Chromium
pub mod Framing
pub mod Detection
pub mod Handshake
