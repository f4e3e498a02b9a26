-- ===== src/Browser/Chromium.antt =====
-- The Chromium fixture of src-tauri/src/browser/chromium.rs: detection of installations, the
-- command line, the framing of protocol messages and the handshake that installs the block list.
-- The file system and the JSON parser are arguments.
use desktop_ai_dashboard.Prelude.{
  ℕ, ◌+◌, ◌%◌, ◌^◌, String, Bool, true, false, not, Option, none, some, List, [], ◌∷◌, ◌++◌, ◌==◌,
  string_eq, nat_eq, if◌then◌else◌, any, is_some_and,
}
use desktop_ai_dashboard.Prelude.Texts.{bytes}

pub data ChromiumKind : Type 0 where
  chrome : ChromiumKind
  chrome_canary : ChromiumKind
  chromium : ChromiumKind

abbrev pub same_kind : ChromiumKind → ChromiumKind → Bool
same_kind chrome chrome = true
same_kind chrome_canary chrome_canary = true
same_kind chromium chromium = true
same_kind _ _ = false

-- A candidate is a `ChromiumInstall` that may not exist.
pub record ChromiumInstall : Type 0 where
  pub label : String
  pub kind : ChromiumKind
  pub path : String

-- The loop of `detect_from`, with the set `seen`.
unfoldable pub detect_unseen :
    (String → Bool) → List ChromiumKind → List ChromiumInstall → List ChromiumInstall
detect_unseen exists seen [] = []
detect_unseen exists seen (c ∷ cs) =
    let skipped = detect_unseen exists seen cs in
    let found = c ∷ detect_unseen exists (c.kind ∷ seen) cs in
    if any (same_kind c.kind) seen then skipped else if not (exists c.path) then skipped else found

unfoldable pub detect_from : List ChromiumInstall → (String → Bool) → List ChromiumInstall
unfolding detect_unseen
detect_from candidates exists = detect_unseen exists [] candidates

unfoldable pub frame : String → List ℕ
frame message = bytes message ++ 0 ∷ []

abbrev push_segment : List ℕ → List (List ℕ) → List (List ℕ)
push_segment [] later = later
push_segment (b ∷ bs) later = (b ∷ bs) ∷ later

-- The loop of `split_frames`; `segment` is `buffer[start..index]`.
unfoldable pub split_from : List ℕ → List ℕ → List (List ℕ)
split_from segment [] = []
split_from segment (byte ∷ rest) =
    let later = split_from [] rest in
    let longer = split_from (segment ++ byte ∷ []) rest in
    if byte == 0 then push_segment segment later else longer

unfoldable pub split_frames : List ℕ → List (List ℕ)
unfolding split_from
split_frames buffer = split_from [] buffer

-- What the handshake reads of a parsed message.
pub record Ack : Type 0 where
  pub id : Option ℕ
  pub session_id : Option String
  pub has_error : Bool

-- The answers of `read_message`; a list of them that is at its end stands for `Ok(None)`.
pub data Reply : Type 0 where
  broken : Reply
  message : String → Reply

pub data CdpError : Type 0 where
  session_required : CdpError
  not_written : CdpError
  not_read : CdpError
  ended : CdpError
  malformed : CdpError
  session_mismatch : CdpError
  rejected : CdpError

pub data Installed : Type 0 where
  installed : Installed
  refused : CdpError → Installed

module _ (parse_json : String → Option Ack) where
  -- What a reply is for the request of this identifier; none for one that is skipped.
  unfoldable pub judge : ℕ → String → String → Option Installed
  judge id session text = elim (parse_json text) [
    | none ↦ some (refused malformed)
    | some a ↦
        if not (is_some_and a.id (λ n. n == id))
        then none
        else if not (is_some_and a.session_id (λ s. s == session))
        then some (refused session_mismatch)
        else if a.has_error
        then some (refused rejected)
        else some installed
  ]

  unfoldable pub await_ack : ℕ → String → List Reply → Installed
  unfolding judge
  await_ack id session [] = refused ended
  await_ack id session (broken ∷ rest) = refused not_read
  await_ack id session (message text ∷ rest) =
      let later = await_ack id session rest in
      elim (judge id session text) [ some answer ↦ answer | none ↦ later ]

  -- The result, with the next value of the counter of identifiers.
  unfoldable pub install_higgsfield_block : ℕ → String → Bool → List Reply → Installed × ℕ
  unfolding await_ack
  install_higgsfield_block next_id session writes replies =
      if session == "" then (refused session_required, next_id) else (
        if not writes then refused not_written else await_ack next_id session replies,
        (next_id + 1) % 2 ^ 64,
      )
