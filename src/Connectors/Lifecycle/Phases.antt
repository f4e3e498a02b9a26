-- ===== src/Connectors/Lifecycle/Phases.antt =====
-- The stages of a sign-in attempt in src-tauri/src/connectors/lifecycle.rs as a diagram, and the
-- browser callback.
use desktop_ai_dashboard.Prelude.{
  ℕ, ◌<◌, String, Bool, true, false, Option, none, some, [], ◌≡◌, ◌⊎◌, ◌↔◌, inl, inr, string_eq,
  nat_eq, contains, AppResult, ok, err, arith, Option-cases,
}
use desktop_ai_dashboard.Host.{Url}
use desktop_ai_dashboard.Connectors.Grants.Types.{Token}
use desktop_ai_dashboard.Connectors.Loopback.{matches_callback_url}
use desktop_ai_dashboard.Connectors.Grants.Operations.{no_grants}
use desktop_ai_dashboard.Connectors.Lifecycle.{
  AttemptPhase, pending, exchanging, connected, cancelled, failed, AttemptStatus, Pending,
  Lifecycle, terminal, expire, begin, check, exchange, finish, committed, cancel, begin_refresh,
  finish_refresh, disconnect, allows_callback, callback_path,
}
use desktop_ai_dashboard.Connectors.Lifecycle.Attempts.{
  IsSound, begin-IsSound, check-IsSound, exchange-IsSound, finish-IsSound, committed-IsSound,
  cancel-IsSound,
}

pub data Operation : Type 0 where
  beginning : ℕ → String → ℕ → ℕ → ℕ → String → Token → String → Operation
  checking : String → ℕ → Operation
  exchanging_code : String → ℕ → Operation
  finishing : String → AppResult (Unit {0}) → ℕ → Operation
  committing : String → Operation
  cancelling : String → ℕ → Operation
  refreshing : String → String → Operation
  refreshed : String → String → Operation
  disconnecting : String → Operation

unfoldable pub apply : Operation → Lifecycle → Lifecycle
apply (beginning port state timeout now started fresh token expires_at) s =
    (begin port state timeout now started fresh token expires_at s).0
apply (checking id now) s = (check id now s).0
apply (exchanging_code id now) s = (exchange id now s).0
apply (finishing id result now) s = (finish id result now s).0
apply (committing id) s = committed id s
apply (cancelling id now) s = (cancel id now s).0
apply (refreshing id fresh) s = (begin_refresh id fresh s).0
apply (refreshed id generation) s = finish_refresh id generation s
apply (disconnecting id) s = disconnect id s

-- A new token is not a cancelled one.
abbrev pub IsFresh : Operation → Lifecycle → Type 0
IsFresh (beginning port state timeout now started fresh token expires_at) s =
    contains (expire now s).stopped token ≡ false
IsFresh _ s = Unit

-- `Lifecycle::default()`.
abbrev pub no_attempts : Lifecycle
no_attempts = record {
  revision = 0;
  attempt = none;
  grants = no_grants;
  pending = none;
  refreshes = [];
  stopped = [];
}

pub data Reachable : Lifecycle → Type 0 where
  start : Reachable no_attempts
  next : {s : Lifecycle} → Reachable s → (op : Operation) → IsFresh op s → Reachable (apply op s)

apply-IsSound : (op : Operation) (s : Lifecycle) → IsFresh op s → IsSound s → IsSound (apply op s)
unfolding apply begin_refresh finish_refresh disconnect
apply-IsSound (beginning port state timeout now started fresh token expires_at) s f h =
    begin-IsSound port state timeout now started fresh token expires_at s f h
apply-IsSound (checking id now) s f h = check-IsSound id now s h
apply-IsSound (exchanging_code id now) s f h = exchange-IsSound id now s h
apply-IsSound (finishing id result now) s f h = finish-IsSound id result now s h
apply-IsSound (committing id) s f h = committed-IsSound id s h
apply-IsSound (cancelling id now) s f h = cancel-IsSound id now s h
apply-IsSound (refreshing id fresh) s f h = ground arith
apply-IsSound (refreshed id generation) s f h = ground arith
apply-IsSound (disconnecting id) s f h = h

-- In every state that the operations reach from the first one, with new tokens: a pending attempt
-- has its own status, which is `pending` or `exchanging` and shows no error, and its token is not
-- cancelled; with no pending attempt the status, if there is one, is terminal.
pub reachable_attempts-IsSound : (s : Lifecycle) → Reachable s → IsSound s
reachable_attempts-IsSound s start = tt
reachable_attempts-IsSound s (next {s = t} r op f) =
    apply-IsSound op t f (reachable_attempts-IsSound t r)

-- In a sound state, the browser lets a callback through exactly while an attempt shows as
-- `pending`, before its deadline, at a URL that matches the port and the state of that attempt:
-- never once the code is being exchanged, and never after the attempt has ended.
pub allows_callback_iff :
    (url : Url) (now : ℕ) (s : Lifecycle)
    → IsSound s
    → (allows_callback url now s ≡ true) ↔ (
        (p : Pending) × (a : AttemptStatus) × (s.pending ≡ some p)
        × (s.attempt ≡ some a)
        × (a.id ≡ p.id)
        × (a.phase ≡ pending)
        × (now < p.deadline)
        × (matches_callback_url url p.port callback_path p.state ≡ true))
unfolding allows_callback
allows_callback_iff url now s h = (
  λ allowed. elim (Option-cases s.pending) [
    | inl idle ↦ ground arith
    | inr (p, busy) ↦ elim (Option-cases s.attempt) [
      | inl hidden ↦ ground arith
      | inr (a, shown) ↦ (p, a, busy, shown, ground arith, ground arith, ground arith, ground arith)
    ]
  ],
  λ (p, a, busy, shown, own, phase, early, same). ground arith,
)

-- The diagram of the stages: the exchange of a code comes after the wait for it, and a terminal
-- stage is final.
abbrev pub CanBecome : AttemptPhase → AttemptPhase → Type 0
CanBecome pending exchanging = Unit
CanBecome pending connected = Unit
CanBecome pending cancelled = Unit
CanBecome pending failed = Unit
CanBecome exchanging exchanging = Unit
CanBecome exchanging connected = Unit
CanBecome exchanging cancelled = Unit
CanBecome exchanging failed = Unit
CanBecome _ _ = ⊥

-- The status is as before, or the same attempt has moved along the diagram.
abbrev pub Follows : Option AttemptStatus → Option AttemptStatus → Type 0
Follows none none = Unit
Follows none (some b) = ⊥
Follows (some a) none = ⊥
Follows (some a) (some b) = (a ≡ b) ⊎ ((a.id ≡ b.id) × CanBecome a.phase b.phase)

abbrev pub is_beginning : Operation → Bool
is_beginning (beginning port state timeout now started fresh token expires_at) = true
is_beginning _ = false

finish-Follows :
    (id : String) (result : AppResult (Unit {0})) (now : ℕ) (s : Lifecycle)
    → IsSound s
    → Follows s.attempt (finish id result now s).0.attempt
unfolding finish expire terminal
finish-Follows id (ok u) now s h = ground arith
finish-Follows id (err e) now s h = ground arith

-- From a sound state every operation but `begin` keeps the shown attempt or moves it along the
-- diagram, so a connected, cancelled or failed attempt stays as it is until the next `begin`.
pub apply-Follows :
    (op : Operation) (s : Lifecycle)
    → is_beginning op ≡ false
    → IsSound s
    → Follows s.attempt (apply op s).attempt
unfolding apply check exchange committed cancel begin_refresh finish_refresh disconnect terminal
    expire
apply-Follows (beginning port state timeout now started fresh token expires_at) s b h = cc
apply-Follows (checking id now) s b h = ground arith
apply-Follows (exchanging_code id now) s b h = ground arith
apply-Follows (finishing id result now) s b h = finish-Follows id result now s h
apply-Follows (committing id) s b h = ground arith
apply-Follows (cancelling id now) s b h = ground arith
apply-Follows (refreshing id fresh) s b h = ground arith
apply-Follows (refreshed id generation) s b h = ground arith
apply-Follows (disconnecting id) s b h = ground arith
