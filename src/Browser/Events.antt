-- ===== src/Browser/Events.antt =====
-- The life of a browser session as a sequence of events: the commands, and the callbacks of the
-- windows that src-tauri/src/browser/macos.rs installs, each of which takes the lock once.
use desktop_ai_dashboard.Prelude.{
  ℕ, String, true, ◌&&◌, some, List, [], ◌∷◌, ◌==◌, nat_eq, if◌then◌else◌,
}
use desktop_ai_dashboard.Host.{Host, Url}
use desktop_ai_dashboard.Browser.Session.{
  Session, BrowserConfig, status, fail, expire, mark_closed, shutdown, secure, page_loaded,
}
use desktop_ai_dashboard.Browser.Actions.{Action, Windows, perform_on_main}

-- What a callback of the window with a given generation does.
pub data Callback : Type 0 where
  failed : Callback
  timed_out : Callback
  destroyed : Callback
  secured : String → Callback
  loaded : Url → Callback
  not_shown : Callback

abbrev not_shown_text : String
not_shown_text = "The browser is open, but its window could not be brought forward."

-- The end of `build` on a window that could not be brought forward.
abbrev mark_not_shown : ℕ → Session → Session
mark_not_shown generation s =
    if s.generation == generation && s.secured
    then record s { status = record (s.status) { error = some not_shown_text } }
    else s

module _ (crates : Host) where
  unfoldable pub call_back : Callback → ℕ → Session → Session
  unfolding fail expire mark_closed page_loaded status
  call_back failed g s = fail g s
  call_back timed_out g s = expire g s
  call_back destroyed g s = mark_closed g true s
  call_back (secured profile) g s = secure g profile s
  call_back (loaded url) g s = page_loaded crates g url s
  call_back not_shown g s = status (mark_not_shown g s)

  unfoldable pub call_all : List (Callback × ℕ) → Session → Session
  unfolding call_back
  call_all [] s = s
  call_all ((c, g) ∷ rest) s = call_all rest (call_back c g s)

  pub data Event : Type 0 where
    command : Windows → Action → Event
    callback : Callback → ℕ → Event
    emitted : Event
    quit : Event

  unfoldable pub handle : BrowserConfig → Event → Session → Session
  unfolding perform_on_main call_back shutdown status
  handle config (command windows action) s = (perform_on_main crates config windows action s).1
  handle config (callback c g) s = call_back c g s
  handle config emitted s = status s
  handle config quit s = shutdown s

  unfoldable pub run : BrowserConfig → List Event → Session → Session
  unfolding handle
  run config [] s = s
  run config (e ∷ rest) s = run config rest (handle config e s)
