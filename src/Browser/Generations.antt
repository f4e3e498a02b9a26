-- ===== src/Browser/Generations.antt =====
-- Which window a callback of src-tauri/src/browser/macos.rs can change: the generations of the
-- sessions in src-tauri/src/browser.rs.
use desktop_ai_dashboard.Prelude.{ℕ, ◌^◌, ◌<◌, false, List, [], ◌∷◌, ◌++◌, ◌≡◌, ◌≢◌, nat_eq, arith}
use desktop_ai_dashboard.Host.{Host}
use desktop_ai_dashboard.Browser.Addresses.{BrowserService}
use desktop_ai_dashboard.Browser.Session.{
  Session, status, fail, expire, mark_closed, page_loaded, start, current,
}
use desktop_ai_dashboard.Browser.Events.{
  Callback, failed, timed_out, destroyed, secured, loaded, not_shown, call_back, call_all,
}

-- The session, up to the revision of its snapshots.
abbrev pub at_revision : ℕ → Session → Session
at_revision n s = record s { status = record (s.status) { revision = n } }

-- A callback of a window of another generation changes nothing of the session but the revision.
pub call_back-stale :
    (crates : Host) (c : Callback) (g : ℕ) (s : Session)
    → s.generation ≢ g
    → call_back crates c g s ≡ at_revision (call_back crates c g s).status.revision s
unfolding call_back fail expire mark_closed page_loaded status
call_back-stale crates failed g s h = ground arith
call_back-stale crates timed_out g s h = ground arith
call_back-stale crates destroyed g s h = ground arith
call_back-stale crates (secured profile) g s h = ground arith
call_back-stale crates (loaded url) g s h = ground arith
call_back-stale crates not_shown g s h = ground arith

module _ (crates : Host) where
  current-call_back :
      (c : Callback) (g k : ℕ) (s : Session)
      → current g s ≡ false
      → current g (call_back crates c k s) ≡ false
  unfolding call_back fail expire mark_closed page_loaded status
  current-call_back failed g k s h = ground arith
  current-call_back timed_out g k s h = ground arith
  current-call_back destroyed g k s h = ground arith
  current-call_back (secured profile) g k s h = ground arith
  current-call_back (loaded url) g k s h = ground arith
  current-call_back not_shown g k s h = ground arith

  current-call_all :
      (rest : List (Callback × ℕ)) (g : ℕ) (s : Session)
      → current g s ≡ false
      → current g (call_all crates rest s) ≡ false
  unfolding call_all
  current-call_all [] g s h = h
  current-call_all ((c, k) ∷ rest) g s h =
      current-call_all rest g (call_back crates c k s) (current-call_back c g k s h)

  -- An opening ends: whatever callbacks arrive before and after its timeout, in whatever order,
  -- the session of that generation is not opening when all have run.
  pub opening_ends :
      (before after : List (Callback × ℕ)) (g : ℕ) (s : Session)
      → current g (call_all crates (before ++ (timed_out, g) ∷ after) s) ≡ false
  unfolding call_all call_back expire status
  opening_ends [] after g s =
      current-call_all after g (call_back crates timed_out g s) (ground arith)
  opening_ends ((c, k) ∷ before) after g s = opening_ends before after g (call_back crates c k s)

  -- A session that is started has a generation other than the last one, so no callback of a window
  -- of the last one changes it, but for the revision: it goes on opening, unsecured.
  pub start-fences :
      (service : BrowserService) (c : Callback) (s : Session)
      → s.generation < 2 ^ 64
      → call_back crates c s.generation (start service s)
        ≡ at_revision
            (call_back crates c s.generation (start service s)).status.revision
            (start service s)
  start-fences service c s h =
      call_back-stale crates c s.generation (start service s) (ground arith)
