-- ===== src/Connectors/Lifecycle.antt =====
-- Sign-in attempts and refreshes: src-tauri/src/connectors/lifecycle.rs, `impl Lifecycle`.
-- An `Instant` is a number of the monotonic clock, and an operation that reads the clock takes the
-- reading as an argument.
pub mod Attempts
pub mod Phases
pub mod Refreshes
use desktop_ai_dashboard.Prelude.{
  ℕ, ◌+◌, ◌%◌, String, Bool, true, false, not, ◌&&◌, Option, none, some, List, [], ◌∷◌, ◌==◌,
  string_eq, nat_eq, leb, ltb, is_some, is_some_and, contains, if◌then◌else◌, AppError, AppResult,
  ok, err, is_ok, ◌>>=◌, ◌>>◌,
}
use desktop_ai_dashboard.Prelude.Maps.{get, contains_key, insert, remove}
use desktop_ai_dashboard.Host.{Url}
use desktop_ai_dashboard.Connectors.Grants.Types.{Grants, Token}
use desktop_ai_dashboard.Connectors.Grants.Table.{revoke_connection, stale_read}
use desktop_ai_dashboard.Connectors.Loopback.{matches_callback_url}

pub data AttemptPhase : Type 0 where
  pending exchanging connected cancelled failed : AttemptPhase

pub record AttemptStatus : Type 0 where
  pub id : String
  pub phase : AttemptPhase
  pub expires_at : String
  pub error : Option AppError

pub record Pending : Type 0 where
  pub id : String
  pub state : String
  pub port : ℕ  -- u16
  pub deadline : ℕ
  pub callback_active : Bool
  pub cancel : Token

-- `stopped` holds the tokens of attempts on which `cancel()` was called.
pub record Lifecycle : Type 0 where
  pub revision : ℕ  -- u64
  pub attempt : Option AttemptStatus
  pub grants : Grants
  pub pending : Option Pending
  pub refreshes : List (String × String)
  pub stopped : List Token

abbrev pub callback_path : String
callback_path = "/oauth2/google/callback"

abbrev pub timeout_error : AppError
timeout_error = record {
  code = "connector_timeout";
  message = "Sign-in did not complete in time. Try again.";
}

abbrev pub stale_error : AppError
stale_error = stale_read

abbrev pub sign_in_pending : AppError
sign_in_pending = record {
  code = "connector_pending";
  message = "A Google sign-in is already in progress. Finish or cancel it first.";
}

abbrev pub refresh_pending : AppError
refresh_pending = record {
  code = "connector_pending";
  message = "This connection is already refreshing.";
}

-- `revision += 1` on a u64.
abbrev pub bump : ℕ → ℕ
bump revision = (revision + 1) % 18446744073709551616

abbrev pub set_outcome :
    AttemptPhase → Option AppError → Option AttemptStatus → Option AttemptStatus
set_outcome phase error none = none
set_outcome phase error (some a) = some (record a { phase = phase; error = error })

abbrev pub stop : Option Pending → List Token → List Token
stop none stopped = stopped
stop (some p) stopped = p.cancel ∷ stopped

unfoldable pub terminal : AttemptPhase → Option AppError → Lifecycle → Lifecycle
terminal phase error s = record s {
  pending = none;
  stopped = stop s.pending s.stopped;
  attempt = set_outcome phase error s.attempt;
  revision = bump s.revision;
}

unfoldable pub expire : ℕ → Lifecycle → Lifecycle
expire now s =
    if is_some_and s.pending (λ p. leb p.deadline now)
    then terminal failed (some timeout_error) s
    else s

-- `fresh` is a new identifier, `token` a new token, `now` and `started` two readings of the clock,
-- and `expires_at` the text of `expires_at_from_secs` in oauth.rs.
unfoldable pub begin :
    ℕ
    → String
    → ℕ
    → ℕ
    → ℕ
    → String
    → Token
    → String
    → Lifecycle
    → Lifecycle × AppResult (String × Token × ℕ)
begin port state timeout now started fresh token expires_at s =
    let t = expire now s in
    if is_some t.pending then (t, err sign_in_pending) else (
      record t {
        pending = some (record {
          id = fresh;
          state = state;
          port = port;
          deadline = started + timeout;
          callback_active = true;
          cancel = token;
        });
        attempt =
            some (record { id = fresh; phase = pending; expires_at = expires_at; error = none });
        revision = bump t.revision;
      },
      ok (fresh, token, started + timeout),
    )

abbrev admits : Url → ℕ → List Token → Pending → Bool
admits url now stopped p =
    p.callback_active
    && not (contains stopped p.cancel)
    && ltb now p.deadline
    && matches_callback_url url p.port callback_path p.state

unfoldable pub allows_callback : Url → ℕ → Lifecycle → Bool
allows_callback url now s = is_some_and s.pending (admits url now s.stopped)

abbrev pub owns : String → List Token → Pending → Bool
owns id stopped p = p.id == id && not (contains stopped p.cancel)

unfoldable pub check : String → ℕ → Lifecycle → Lifecycle × AppResult (Unit {0})
check id now s =
    let t = expire now s in
    if is_some_and t.pending (owns id t.stopped) then (t, ok tt) else (t, err stale_error)

abbrev close_callback : Option Pending → Option Pending
close_callback none = none
close_callback (some p) = some (record p { callback_active = false })

abbrev set_phase : AttemptPhase → Option AttemptStatus → Option AttemptStatus
set_phase phase none = none
set_phase phase (some a) = some (record a { phase = phase })

-- Behind a passed `check` the two `unwrap` calls find a value: `Attempts.IsSound`.
unfoldable pub exchange : String → ℕ → Lifecycle → Lifecycle × AppResult (Unit {0})
exchange id now s =
    let (t, checked) = check id now s in
    if is_ok checked
    then (
      record t {
        pending = close_callback t.pending;
        attempt = set_phase exchanging t.attempt;
        revision = bump t.revision;
      },
      ok tt,
    )
    else (t, checked)

abbrev outcome_phase : AppResult (Unit {0}) → AttemptPhase
outcome_phase (ok _) = connected
outcome_phase (err e) = failed

abbrev outcome_error : AppResult (Unit {0}) → Option AppError
outcome_error (ok _) = none
outcome_error (err e) = some e

unfoldable pub finish : String → AppResult (Unit {0}) → ℕ → Lifecycle → Lifecycle × Bool
finish id result now s =
    let t = expire now s in
    if is_some_and t.pending (λ p. p.id == id)
    then (terminal (outcome_phase result) (outcome_error result) t, true)
    else (t, false)

unfoldable pub committed : String → Lifecycle → Lifecycle
committed id s = if is_some_and s.pending (λ p. p.id == id) then terminal connected none s else s

unfoldable pub cancel : String → ℕ → Lifecycle → Lifecycle × AppResult (Unit {0})
cancel id now s =
    let (t, checked) = check id now s in
    if is_ok checked then (terminal cancelled none t, ok tt) else (t, checked)

unfoldable pub begin_refresh : String → String → Lifecycle → Lifecycle × AppResult String
begin_refresh id fresh s =
    if contains_key id s.refreshes
    then (s, err refresh_pending)
    else (record s { refreshes = insert id fresh s.refreshes }, ok fresh)

unfoldable pub check_refresh : String → String → Lifecycle → AppResult (Unit {0})
check_refresh id generation s =
    if is_some_and (get id s.refreshes) (λ current. current == generation)
    then ok tt
    else err stale_error

unfoldable pub finish_refresh : String → String → Lifecycle → Lifecycle
unfolding check_refresh
finish_refresh id generation s =
    if is_ok (check_refresh id generation s)
    then record s { refreshes = remove id s.refreshes }
    else s

unfoldable pub disconnect : String → Lifecycle → Lifecycle
disconnect id s = record s {
  grants = revoke_connection id s.grants;
  refreshes = remove id s.refreshes;
  revision = bump s.revision;
}
