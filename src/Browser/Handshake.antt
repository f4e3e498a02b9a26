-- ===== src/Browser/Handshake.antt =====
-- The handshake of src-tauri/src/browser/chromium.rs that installs the block list.
use desktop_ai_dashboard.Prelude.{ℕ, String, false, Option, none, some, ◌≡◌, nat_eq, string_eq}
use desktop_ai_dashboard.Browser.Chromium.{Ack, Reply, broken, message, judge}

module _ (parse_json : String → Option Ack) (id : ℕ) (session : String) where
  -- A reply that is read and is for another request, or is an event.
  abbrev pub IsOther : Reply → Type 0
  IsOther broken = ⊥
  IsOther (message text) = judge parse_json id session text ≡ none

  abbrev pub IsAck : String → Type 0
  IsAck text =
      (a : Ack) × (parse_json text ≡ some a)
      × (a.id ≡ some id)
      × (a.session_id ≡ some session)
      × (a.has_error ≡ false)
