-- ===== src/Examples/Attempts.antt =====
-- Runs of the sign-in attempts (src-tauri/src/connectors/lifecycle.rs).
use desktop_ai_dashboard.Prelude.{List, ℕ}
use desktop_ai_dashboard.Prelude.{
  ◌<◌, ◌≤◌, String, true, none, some, [], ◌∷◌, ◌≡◌, ◌≢◌, ◌↔◌, refl, err, nat_eq, string_eq, arith,
  eq_iff, invalid,
}
use desktop_ai_dashboard.Host.{Url}
use Prim.Native.String.{len}
use desktop_ai_dashboard.Prelude.Texts.{bytes}
use desktop_ai_dashboard.Connectors.Loopback.{
  max_request_bytes, valid_encoding, constant_time_eq, query_or_empty, matches_callback_url,
}
use desktop_ai_dashboard.Connectors.Loopback.Comparison.{constant_time_eq_iff}
use desktop_ai_dashboard.Connectors.Loopback.Callbacks.{states, matches_callback_url_iff}
use desktop_ai_dashboard.Connectors.Lifecycle.{
  pending, AttemptStatus, Pending, Lifecycle, allows_callback, callback_path, expire,
}
use desktop_ai_dashboard.Connectors.Lifecycle.Attempts.{IsSound}
use desktop_ai_dashboard.Connectors.Lifecycle.Phases.{
  beginning, finishing, apply, no_attempts, start, next, Follows, reachable_attempts-IsSound,
  allows_callback_iff, apply-Follows,
}

abbrev pub attempt : Pending
attempt = record {
  id = "attempt";
  state = "state";
  port = 4000;
  deadline = 300;
  callback_active = true;
  cancel = 1;
}

abbrev pub status : AttemptStatus
status = record { id = "attempt"; phase = pending; expires_at = "later"; error = none }

-- A sign-in that waits for the browser.
abbrev pub waiting : Lifecycle
waiting = record no_attempts { pending = some attempt; attempt = some status }

abbrev pub url : Url
url = record {
  text = "http://127.0.0.1:4000/oauth2/google/callback?state=state&code=code";
  scheme = "http";
  username = "";
  password = none;
  host = some "127.0.0.1";
  port = some 4000;
  path = "/oauth2/google/callback";
  query = some "state=state&code=code";
  query_pairs = ("state", "state") ∷ ("code", "code") ∷ [];
  fragment = none;
  origin = "http://127.0.0.1:4000";
}

in_time : 100 < 300
in_time = omega arith

late : 300 ≤ 400
late = omega arith

waiting-IsSound : IsSound waiting
waiting-IsSound = (refl, refl, refl, refl)

apart : (attempt.id ≢ "other") × (◌≢◌ {A = String} "old" "new")
apart = (λ h. ground (arith, eq_iff "attempt" "other"), λ h. ground (arith, eq_iff "old" "new"))

reachable_attempts-IsSound_example :
    IsSound (apply (beginning 4000 "state" 300 0 0 "attempt" 1 "later") no_attempts)
unfolding expire
reachable_attempts-IsSound_example =
    reachable_attempts-IsSound
      (apply (beginning 4000 "state" 300 0 0 "attempt" 1 "later") no_attempts)
      (next start (beginning 4000 "state" 300 0 0 "attempt" 1 "later") refl)

apply-Follows_example :
    Follows (some status) (apply (finishing "attempt" (err invalid) 100) waiting).attempt
apply-Follows_example =
    apply-Follows (finishing "attempt" (err invalid) 100) waiting refl waiting-IsSound

allows_callback_iff_example : (allows_callback url 100 waiting ≡ true) ↔ (
    (p : Pending) × (a : AttemptStatus) × (some attempt ≡ some p)
    × (some status ≡ some a)
    × (a.id ≡ p.id)
    × (a.phase ≡ pending)
    × (100 < p.deadline)
    × (matches_callback_url url p.port callback_path p.state ≡ true))
allows_callback_iff_example = allows_callback_iff url 100 waiting waiting-IsSound

constant_time_eq_iff_example :
    (constant_time_eq (1 ∷ 2 ∷ []) (1 ∷ 3 ∷ []) ≡ true)
    ↔ (◌≡◌ {A = List ℕ} (1 ∷ 2 ∷ []) (1 ∷ 3 ∷ []))
constant_time_eq_iff_example = constant_time_eq_iff (1 ∷ 2 ∷ []) (1 ∷ 3 ∷ [])

matches_callback_url_iff_example : (matches_callback_url url 4000 callback_path "state" ≡ true) ↔ (
    (url.scheme ≡ "http")
    × (url.host ≡ some "127.0.0.1")
    × (url.port ≡ some 4000)
    × (url.username ≡ "")
    × (url.password ≡ none)
    × (url.fragment ≡ none)
    × (url.path ≡ callback_path)
    × (len url.text ≤ max_request_bytes)
    × (valid_encoding (bytes (query_or_empty url.query)) ≡ true)
    × ((k : String) × (v : String) × (states url ≡ (k, v) ∷ []) × (bytes v ≡ bytes "state")))
matches_callback_url_iff_example = matches_callback_url_iff url 4000 callback_path "state"
