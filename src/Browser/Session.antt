-- ===== src/Browser/Session.antt =====
-- The session of the owned browser: `Session` and the methods of `BrowserState` in
-- src-tauri/src/browser.rs, and the locked steps of the window's callbacks in
-- src-tauri/src/browser/macos.rs. The state behind the mutex is passed along.
use desktop_ai_dashboard.Prelude.{
  ℕ, ◌+◌, ◌%◌, ◌^◌, min, String, Bool, true, false, not, ◌&&◌, ◌||◌, Option, none, some, List, [],
  ◌∷◌, ◌==◌, nat_eq, string_eq, if◌then◌else◌, is_ok,
}
use desktop_ai_dashboard.Host.{Host, Url}
use desktop_ai_dashboard.Browser.Addresses.{BrowserService, validate_url_with_callback, public_url}

pub data BrowserPhase : Type 0 where
  closed : BrowserPhase
  opening : BrowserPhase
  opened : BrowserPhase
  error : BrowserPhase
  unavailable : BrowserPhase

abbrev pub is_opening : BrowserPhase → Bool
is_opening opening = true
is_opening _ = false

abbrev pub is_error : BrowserPhase → Bool
is_error error = true
is_error _ = false

pub record AvailableEngine : Type 0 where
  pub id : String
  pub label : String

-- `browser_engines` on a host where `macos::supported` gives this answer; false on other systems.
unfoldable pub browser_engines : Bool → List AvailableEngine
browser_engines supported =
    if supported then record { id = "webkit"; label = "WebKit" } ∷ [] else []

pub record OwnedBrowserStatus : Type 0 where
  pub revision : ℕ
  pub available : Bool
  pub phase : BrowserPhase
  pub engine : String
  pub available_engines : List AvailableEngine
  pub chromium_unavailable_reason : String
  pub persistent : Bool
  pub profile_id : Option String
  pub url : Option String
  pub service : Option BrowserService
  pub error : Option String
  pub automation_ready : Bool

pub record Session : Type 0 where
  pub status : OwnedBrowserStatus
  pub generation : ℕ
  pub secured : Bool

-- What a `BrowserState` knows besides the session, and the connectors' pending callback.
pub record BrowserConfig : Type 0 where
  pub allow_loopback : Bool
  pub pending : Url → Bool

abbrev pub max_u64 : ℕ
max_u64 = 18446744073709551615

abbrev pub unavailable_text : String
unavailable_text =
    "Owned browsing requires macOS 14 or later with an isolated WebKit profile and native content blocking."

abbrev pub gate_error : String
gate_error = "The isolated browser could not be secured. No external page was opened."

abbrev pub unavailable_reason : String
unavailable_reason =
    "Chromium is unavailable: startup, restored tabs, background traffic and new targets cannot yet be blocked before network access. No Chromium process was started. Use isolated WebKit on macOS 14 or later."

unfoldable pub new : Bool → Session
unfolding browser_engines
new supported = record {
  status = record {
    revision = 0;
    available = supported;
    phase = if supported then closed else unavailable;
    engine = if supported then "webkit" else "unavailable";
    available_engines = browser_engines supported;
    chromium_unavailable_reason = unavailable_reason;
    persistent = false;
    profile_id = none;
    url = none;
    service = none;
    error = if supported then none else some unavailable_text;
    automation_ready = false;
  };
  generation = 0;
  secured = false;
}

-- `status`: the snapshot is the status of the session that it returns. `emit` takes one as
-- well, since the state knows the app.
unfoldable pub status : Session → Session
status s = record s {
  status = record (s.status) { revision = min (s.status.revision + 1) max_u64 };
}

abbrev failed_status : OwnedBrowserStatus → OwnedBrowserStatus
failed_status t = record t { phase = error; error = some gate_error; url = none }

unfoldable pub fail : ℕ → Session → Session
unfolding status
fail generation s = status (
    if s.generation == generation
    then record s { secured = false; status = failed_status s.status }
    else s)

unfoldable pub expire : ℕ → Session → Session
unfolding status
expire generation s = status (
    if s.generation == generation && is_opening s.status.phase
    then record s { secured = false; status = failed_status s.status }
    else s)

abbrev pub current : ℕ → Session → Bool
current generation s = s.generation == generation && is_opening s.status.phase

-- The status that `closed` leaves.
abbrev closed_status : Bool → OwnedBrowserStatus → OwnedBrowserStatus
closed_status preserve_error t =
    if not preserve_error || not (is_error t.phase)
    then record t { phase = closed; error = none; url = none; service = none }
    else record t { url = none; service = none }

-- `BrowserState::closed`.
unfoldable pub mark_closed : ℕ → Bool → Session → Session
unfolding status
mark_closed generation preserve_error s = status (
    if s.generation == generation
    then record s {
      generation = (s.generation + 1) % 2 ^ 64;
      secured = false;
      status = closed_status preserve_error s.status;
    }
    else s)

unfoldable pub shutdown : Session → Session
unfolding mark_closed
shutdown s = mark_closed s.generation false s

-- The step by which `perform_on_main` starts a session.
abbrev pub start : BrowserService → Session → Session
start service s = record s {
  generation = (s.generation + 1) % 2 ^ 64;
  secured = false;
  status = record (s.status) {
    phase = opening;
    error = none;
    url = none;
    service = some service;
    engine = "webkit";
  };
}

-- The step by which `build` ends: the window is up and its bridge has been removed.
abbrev pub secure : ℕ → String → Session → Session
secure generation profile s =
    if not (s.generation == generation) || not (is_opening s.status.phase) then s else record s {
      secured = true;
      status = record (s.status) {
        phase = opened;
        persistent = true;
        profile_id = some profile;
        url = some "about:blank";
        error = none;
      };
    }

module _ (crates : Host) where
  -- `on_page_load`.
  unfoldable pub page_loaded : ℕ → Url → Session → Session
  unfolding public_url status
  page_loaded generation url s = status (
      if s.generation == generation && s.secured
      then record s { status = record (s.status) { url = public_url crates url } }
      else s)

  unfoldable pub checked_url : BrowserConfig → String → Bool
  unfolding validate_url_with_callback
  checked_url config raw =
      is_ok (validate_url_with_callback crates raw config.allow_loopback config.pending)

  -- `permits`, which `on_navigation` and the history actions ask.
  unfoldable pub permits : BrowserConfig → ℕ → Url → Session → Bool
  unfolding checked_url
  permits config generation url s =
      let allowed = url.text == "about:blank" || checked_url config url.text in
      s.generation == generation && (url.text == "about:blank" || s.secured && allowed)
