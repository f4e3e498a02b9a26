-- ===== src/Examples/Browser.antt =====
-- Runs of the owned browser (src-tauri/src/browser.rs and src-tauri/src/browser).
use desktop_ai_dashboard.Prelude.{
  String, true, false, none, some, List, [], ◌∷◌, ◌++◌, map, ◌≡◌, ◌≢◌, ◌⊎◌, refl, Option, ◌==◌,
  string_eq, if◌then◌else◌, arith, eq_iff,
}
use desktop_ai_dashboard.Prelude.Texts.{bytes}
use desktop_ai_dashboard.Prelude.Scans.{
  chars, has_infix, strip_prefix, until, split, split_once, trim_matches, trim_start_matches,
  trim_end_matches, to_ascii_lowercase, same_chars,
}
use desktop_ai_dashboard.Prelude.Addresses.{parse_ip}
use desktop_ai_dashboard.Host.{Host, Url}
use desktop_ai_dashboard.Browser.Addresses.{
  gmail, validate_url, validate_url_with_callback, is_refused, is_malformed, has_userinfo,
  denied_host, is_loopback_host, is_named,
}
use desktop_ai_dashboard.Browser.Session.{
  Session, BrowserConfig, new, start, secure, permits, checked_url, current,
}
use desktop_ai_dashboard.Browser.Actions.{Windows, open_page, webkit}
use desktop_ai_dashboard.Browser.Events.{
  failed, timed_out, destroyed, secured, loaded, Event, command, callback, quit, run, call_all,
  call_back,
}
use desktop_ai_dashboard.Browser.Invariant.{IsSafe, reachable_sessions-IsSafe}
use desktop_ai_dashboard.Browser.Generations.{opening_ends, call_back-stale, at_revision}
use desktop_ai_dashboard.Browser.Navigation.{IsAllowed, permits-IsClean}
use desktop_ai_dashboard.Browser.Chromium.{Ack, Reply, broken, message, split_frames}
use desktop_ai_dashboard.Browser.Framing.{frames, split_frames-frames}

-- The page at any text is a page of example.com.
abbrev page : String → Url
page s = record {
  text = s;
  scheme = "https";
  username = "";
  password = none;
  host = some "example.com";
  port = none;
  path = "/";
  query = none;
  query_pairs = [];
  fragment = none;
  origin = "https://example.com";
}

abbrev web : Host
web = record { parse_uuid = λ s. none; parse_rfc3339 = λ s. none; parse_url = λ s. some (page s) }

abbrev config : BrowserConfig
config = record { allow_loopback = false; pending = λ url. false }

abbrev no_window : Windows
no_window = record {
  present = false;
  url = none;
  destroys = true;
  navigates = true;
  shows = true;
  opens = true;
}

abbrev visit : List (Event web)
visit =
    command no_window (open_page gmail none webkit)
    ∷ callback (secured "profile") 1
    ∷ callback (loaded (page "https://example.com/")) 1
    ∷ callback destroyed 1
    ∷ quit
    ∷ []

reachable_sessions-IsSafe_example : IsSafe (run web config visit (new true))
reachable_sessions-IsSafe_example = reachable_sessions-IsSafe web config visit true

abbrev fresh : Session
fresh = start gmail (new true)

opening_ends_example :
    current 1
      (call_all web ((failed, 0) ∷ [] ++ (timed_out, 1) ∷ (secured "profile", 1) ∷ []) fresh)
    ≡ false
opening_ends_example = opening_ends web ((failed, 0) ∷ []) ((secured "profile", 1) ∷ []) 1 fresh

old_generation : fresh.generation ≢ 0
unfolding new
old_generation h = ground arith

call_back-stale_example :
    call_back web destroyed 0 fresh
    ≡ at_revision (call_back web destroyed 0 fresh).status.revision fresh
call_back-stale_example = call_back-stale web destroyed 0 fresh old_generation

abbrev open_session : Session
open_session = secure 1 "profile" fresh

runs : permits web config 1 (page "https://example.com/") open_session ≡ true
unfolding permits checked_url validate_url_with_callback validate_url is_malformed is_refused
    has_userinfo denied_host is_loopback_host is_named new chars has_infix strip_prefix until
    split_once split trim_matches trim_start_matches trim_end_matches to_ascii_lowercase same_chars
    parse_ip
runs = refl

permits-IsClean_example :
    (open_session.generation ≡ 1)
    × (((page "https://example.com/").text ≡ "about:blank")
        ⊎ ((open_session.secured ≡ true)
            × (target : Url) × (web.parse_url (page "https://example.com/").text ≡ some target)
            × IsAllowed config target))
permits-IsClean_example =
    permits-IsClean web config 1 (page "https://example.com/") open_session runs

abbrev messages : List String
messages = "{}" ∷ "ab" ∷ []

split_frames-frames_example : split_frames (frames messages ++ 123 ∷ []) ≡ map bytes messages
split_frames-frames_example =
    split_frames-frames messages (123 ∷ [])
      (
        (λ h. ground (arith, eq_iff "{}" ""), refl),
        ((λ h. ground (arith, eq_iff "ab" ""), refl), tt),
      )
      refl

-- Events have no identifier; the answer has.
abbrev parse_json : String → Option Ack
parse_json s =
    if s == "event"
    then some (record { id = none; session_id = none; has_error = false })
    else some (record { id = some 4; session_id = some "session"; has_error = false })

abbrev replies : List Reply
replies = message "event" ∷ message "answer" ∷ broken ∷ []
