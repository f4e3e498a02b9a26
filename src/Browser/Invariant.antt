-- ===== src/Browser/Invariant.antt =====
-- The invariant of the browser session of src-tauri/src/browser.rs under commands and callbacks.
use desktop_ai_dashboard.Prelude.{
  ℕ, ◌^◌, ◌<◌, ◌≤◌, Bool, true, false, List, [], ◌∷◌, ◌≡◌, nat_eq, string_eq, is_some, arith,
}
use desktop_ai_dashboard.Host.{Host}
use desktop_ai_dashboard.Browser.Addresses.{BrowserService, home}
use desktop_ai_dashboard.Browser.Session.{
  Session, BrowserConfig, opening, opened, status, fail, expire, mark_closed, shutdown, page_loaded,
  new, max_u64,
}
use desktop_ai_dashboard.Browser.Actions.{
  Action, look, close, open_page, navigate, history, Windows, BrowserEngine, webkit, chromium,
  perform_on_main, act, reopen, open_new, open_engine, secured_window,
}
use desktop_ai_dashboard.Browser.Events.{
  Callback, failed, timed_out, destroyed, secured, loaded, not_shown, call_back, Event, command,
  callback, emitted, quit, handle, run,
}

-- A secured session is open in WebKit, on a persistent profile with an identifier; one that
-- opens has no error; the counters are 64-bit numbers.
abbrev pub IsSafe : Session → Type 0
IsSafe s =
    (s.secured ≡ true
      → (s.status.phase ≡ opened)
        × (s.status.persistent ≡ true)
        × (is_some s.status.profile_id ≡ true)
        × (s.status.engine ≡ "webkit"))
    × (s.status.phase ≡ opening → (s.secured ≡ false) × (s.status.engine ≡ "webkit"))
    × (s.status.phase ≡ opened → s.secured ≡ true)
    × (s.generation < 2 ^ 64)
    × (s.status.revision ≤ max_u64)

call_back-IsSafe :
    (crates : Host) (c : Callback) (g : ℕ) (s : Session)
    → IsSafe s
    → IsSafe (call_back crates c g s)
unfolding call_back fail expire mark_closed page_loaded status
call_back-IsSafe crates failed g s h = ground arith
call_back-IsSafe crates timed_out g s h = ground arith
call_back-IsSafe crates destroyed g s h = ground arith
call_back-IsSafe crates (secured profile) g s h = ground arith
call_back-IsSafe crates (loaded url) g s h = ground arith
call_back-IsSafe crates not_shown g s h = ground arith

module _ (crates : Host) (config : BrowserConfig) (windows : Windows) where
  reopen-IsSafe :
      (service : BrowserService) (s : Session)
      → IsSafe s
      → IsSafe (reopen crates config windows service s).1
  unfolding reopen
  reopen-IsSafe home s h = ground arith
  reopen-IsSafe _ s h = ground arith

  open_engine-IsSafe :
      (engine : BrowserEngine) (service : BrowserService) (s : Session)
      → IsSafe s
      → IsSafe (open_engine crates config windows engine service s).1
  unfolding open_engine open_new fail status
  open_engine-IsSafe webkit service s h = ground (arith, reopen-IsSafe service s h)
  open_engine-IsSafe chromium service s h = h

  act-IsSafe :
      (action : Action) (s : Session) → IsSafe s → IsSafe (act crates config windows action s).1
  unfolding act secured_window mark_closed status
  act-IsSafe look s h = ground arith
  act-IsSafe close s h = ground arith
  act-IsSafe history s h = h
  act-IsSafe (navigate raw) s h = ground arith
  act-IsSafe (open_page service raw engine) s h =
      ground (arith, open_engine-IsSafe engine service (status s))

  perform_on_main-IsSafe :
      (action : Action) (s : Session)
      → IsSafe s
      → IsSafe (perform_on_main crates config windows action s).1
  unfolding perform_on_main status
  perform_on_main-IsSafe action s h = ground (arith, act-IsSafe action (status s))

module _ (crates : Host) (config : BrowserConfig) where
  handle-IsSafe : (e : Event crates) (s : Session) → IsSafe s → IsSafe (handle crates config e s)
  unfolding handle shutdown mark_closed status
  handle-IsSafe (command windows action) s h =
      perform_on_main-IsSafe crates config windows action s h
  handle-IsSafe (callback c g) s h = call_back-IsSafe crates c g s h
  handle-IsSafe emitted s h = ground arith
  handle-IsSafe quit s h = ground arith

  keeps :
      (events : List (Event crates)) (s : Session) → IsSafe s → IsSafe (run crates config events s)
  unfolding run
  keeps [] s h = h
  keeps (e ∷ events) s h = keeps events (handle crates config e s) (handle-IsSafe e s h)

-- From the state at the start of the program, on a host with or without WebKit, whatever commands
-- and callbacks follow in whatever order: a secured session is open, in WebKit, on a persistent
-- profile with an identifier; a session that is opening is not secured and is in WebKit; an open
-- one is secured; and the generation and the revision stay within 64 bits.
pub reachable_sessions-IsSafe :
    (crates : Host) (config : BrowserConfig) (events : List (Event crates)) (supported : Bool)
    → IsSafe (run crates config events (new supported))
unfolding new
reachable_sessions-IsSafe crates config events true =
    keeps crates config events (new true) (ground arith)
reachable_sessions-IsSafe crates config events false =
    keeps crates config events (new false) (ground arith)
