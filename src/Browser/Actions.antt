-- ===== src/Browser/Actions.antt =====
-- The commands of the owned browser in src-tauri/src/browser.rs: `resolve_engine`,
-- `perform_on_main` and what it calls, on the state of the session. What the window system answers
-- is an argument.
use desktop_ai_dashboard.Prelude.{
  String, Bool, true, false, not, ◌&&◌, ◌||◌, Option, none, some, ◌==◌, string_eq, if◌then◌else◌,
  AppError, AppResult, ok, err, is_ok, any,
}
use desktop_ai_dashboard.Prelude.Acts.{Act, ◌>>=◌, ◌>>◌, lift, modify, require, state}
use desktop_ai_dashboard.Host.{Host, Url}
use desktop_ai_dashboard.Browser.Addresses.{
  BrowserService, home, custom, validate_url_with_callback, service_url, public_url,
}
use desktop_ai_dashboard.Browser.Session.{
  OwnedBrowserStatus, Session, BrowserConfig, AvailableEngine, is_opening, browser_engines,
  gate_error, unavailable_text, unavailable_reason, status, fail, mark_closed, start,
}

pub data BrowserEngine : Type 0 where
  webkit : BrowserEngine
  chromium : BrowserEngine

pub data Action : Type 0 where
  look : Action
  open_page : BrowserService → Option String → BrowserEngine → Action
  navigate : String → Action
  close : Action
  history : Action

-- The answers of the window system during one action: whether the browser's window exists, its
-- URL, and which of the calls succeed.
pub record Windows : Type 0 where
  pub present : Bool
  pub url : Option Url
  pub destroys : Bool
  pub navigates : Bool
  pub shows : Bool
  pub opens : Bool

abbrev pub unavailable_error : String → AppError
unavailable_error message = record { code = "browser_unavailable"; message = message }

-- `chromium::require_available`.
unfoldable pub require_available : AppResult (Unit {0})
require_available = err (unavailable_error unavailable_reason)

abbrev is_chromium : BrowserEngine → Bool
is_chromium webkit = false
is_chromium chromium = true

abbrev engine_id : BrowserEngine → String
engine_id webkit = "webkit"
engine_id chromium = "chromium"

abbrev engine_or_default : Option BrowserEngine → BrowserEngine
engine_or_default none = webkit
engine_or_default (some e) = e

unfoldable pub resolve_engine : Bool → Option BrowserEngine → AppResult BrowserEngine
unfolding require_available browser_engines
resolve_engine supported request =
    let want = engine_or_default request in
    let found =
      if any (λ (e : AvailableEngine). e.id == engine_id want) (browser_engines supported)
      then ok want
      else err (unavailable_error gate_error) in
    if is_chromium want && not (is_ok require_available)
    then err (unavailable_error unavailable_reason)
    else found

abbrev take_status : Act Session OwnedBrowserStatus
take_status s = let t = status s in (ok t.status, t)

-- `lock()?.status.service = Some(..)`, `.error = None` and `.url = ..`.
abbrev set_service : BrowserService → Session → Session
set_service service s = record s { status = record (s.status) { service = some service } }

abbrev clear_error : Session → Session
clear_error s = record s { status = record (s.status) { error = none } }

abbrev set_url : Option String → Session → Session
set_url url s = record s { status = record (s.status) { url = url } }

abbrev pub closed_error : AppError
closed_error = record { code = "browser_closed"; message = "Open the owned browser first." }

abbrev close_failed : AppError
close_failed = record {
  code = "browser_close_failed";
  message = "The browser window could not be closed.";
}

abbrev busy : AppError
busy = record {
  code = "browser_busy";
  message = "The browser is still securing its profile. Try again shortly.";
}

abbrev navigation_failed : AppError
navigation_failed = record {
  code = "browser_navigation_failed";
  message = "The browser could not navigate.";
}

abbrev focus_failed : AppError
focus_failed = record {
  code = "browser_focus_failed";
  message = "The browser is open, but its window could not be brought forward.";
}

abbrev wrong_channel : AppError
wrong_channel = record {
  code = "browser_navigation_failed";
  message = "The browser history action must use the native result channel.";
}

abbrev is_home : BrowserService → Bool
is_home home = true
is_home _ = false

abbrev shown_url {ℓ} : {A : Type ℓ} → Option Url → (Url → Option A) → Option A
shown_url none f = none
shown_url (some u) f = f u

module _ (crates : Host) (config : BrowserConfig) (windows : Windows) where
  unfoldable pub secured_window : Act Session (Unit {0})
  unfolding require_available
  secured_window s =
      if s.status.engine == "chromium" && not (is_ok require_available)
      then (err (unavailable_error unavailable_reason), s)
      else if not s.secured || not windows.present
      then (err closed_error, s)
      else (ok tt, s)

  unfoldable pub open_url : BrowserService → Option String → AppResult Url
  unfolding validate_url_with_callback service_url
  open_url custom (some raw) =
      validate_url_with_callback crates raw config.allow_loopback config.pending
  open_url service raw = service_url crates service raw config.allow_loopback

  -- The branch of `Action::Open` for a window that exists.
  unfoldable pub reopen : BrowserService → Act Session (Unit {0})
  reopen service = do
    s ← state
    require s.secured (unavailable_error gate_error)
    require (is_home service || windows.navigates) navigation_failed
    modify (λ t. if is_home service then t else set_service service t)
    require windows.shows focus_failed
    modify clear_error

  -- The branch for a new window; `expire` follows later, as a step of its own.
  unfoldable pub open_new : BrowserService → Session → Session
  unfolding fail
  open_new service s = let t = start service s in if windows.opens then t else fail t.generation t

  unfoldable pub open_engine : BrowserEngine → BrowserService → Act Session (Unit {0})
  unfolding require_available reopen open_new
  open_engine webkit service = if windows.present then reopen service else modify (open_new service)
  open_engine chromium service = lift require_available

  unfoldable pub act : Action → Act Session (Unit {0})
  unfolding open_url open_engine secured_window validate_url_with_callback mark_closed public_url
  act look = do
    s ← state
    modify (λ t.
        if not s.secured
        then t
        else if windows.present
        then set_url (shown_url windows.url (public_url crates)) t
        else mark_closed t.generation false t)
  act close = do
    require (not windows.present || windows.destroys) close_failed
    modify (λ t. mark_closed t.generation false t)
  act (open_page service raw engine) = do
    url ← lift (open_url service raw)
    found ← take_status
    require (not (is_opening found.phase)) busy
    open_engine engine service
  act (navigate raw) = do
    url ← lift (validate_url_with_callback crates raw config.allow_loopback config.pending)
    secured_window
    require windows.navigates navigation_failed
    modify (set_service custom)
  act history = lift (err wrong_channel)

  abbrev changes : Action → Bool
  changes look = false
  changes _ = true

  unfoldable pub perform_on_main : Action → Act Session OwnedBrowserStatus
  unfolding act status
  perform_on_main action = do
    first ← take_status
    elim first.available [
      | false ↦
          if changes action then lift (err (unavailable_error unavailable_text)) else take_status
      | true ↦ do act action; modify (λ s. if changes action then status s else s); take_status
    ]
