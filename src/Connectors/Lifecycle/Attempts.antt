-- ===== src/Connectors/Lifecycle/Attempts.antt =====
-- The invariant of sign-in attempts in src-tauri/src/connectors/lifecycle.rs, and operations with
-- the identifier of another attempt.
use desktop_ai_dashboard.Prelude.{
  ℕ, ◌<◌, ◌≤◌, String, Bool, true, false, Option, none, some, List, ◌≡◌, ◌≢◌, refl, ◌⊎◌, inl, inr,
  string_eq, nat_eq, contains, AppError, AppResult, ok, err, is_ok, ◌↔◌, ◌+◌, arith, eq_iff,
  Option-cases,
}
use desktop_ai_dashboard.Connectors.Grants.Types.{Token}
use desktop_ai_dashboard.Connectors.Lifecycle.{
  AttemptPhase, pending, exchanging, connected, cancelled, failed, AttemptStatus, Pending,
  Lifecycle, terminal, expire, begin, check, exchange, finish, committed, cancel, stale_error,
  timeout_error,
}

abbrev pub IsTerminal : AttemptPhase → Type 0
IsTerminal phase = (phase ≡ connected) ⊎ (phase ≡ cancelled) ⊎ (phase ≡ failed)

abbrev pub live_phase : Bool → AttemptPhase
live_phase true = pending
live_phase false = exchanging

-- The pending attempt and its status agree: while an attempt is pending, the status is its own,
-- shows which stage it is in and no error, and its token is not cancelled; else the status, if
-- there is one, is terminal.
abbrev pub Agree : Option Pending → Option AttemptStatus → List Token → Type 0
Agree none none stopped = Unit
Agree none (some a) stopped = IsTerminal a.phase
Agree (some p) none stopped = ⊥
Agree (some p) (some a) stopped =
    (a.id ≡ p.id)
    × (a.phase ≡ live_phase p.callback_active)
    × (a.error ≡ none)
    × (contains stopped p.cancel ≡ false)

abbrev pub IsSound : Lifecycle → Type 0
IsSound s = Agree s.pending s.attempt s.stopped

terminal-IsSound :
    (phase : AttemptPhase) (error : Option AppError) (s : Lifecycle)
    → IsTerminal phase
    → IsSound (terminal phase error s)
unfolding terminal
terminal-IsSound phase error s t = ground arith

expire-IsSound : (now : ℕ) (s : Lifecycle) → IsSound s → IsSound (expire now s)
unfolding expire
expire-IsSound now s h =
    ground (arith, terminal-IsSound failed (some timeout_error) s (inr (inr refl)))

pub begin-IsSound :
    (port : ℕ) (state : String) (timeout now started : ℕ) (fresh : String) (token : Token)
    (expires_at : String) (s : Lifecycle)
    → contains (expire now s).stopped token ≡ false
    → IsSound s
    → IsSound (begin port state timeout now started fresh token expires_at s).0
unfolding begin
begin-IsSound port state timeout now started fresh token expires_at s unused h =
    ground (arith, expire-IsSound now s h)

pub check-IsSound : (id : String) (now : ℕ) (s : Lifecycle) → IsSound s → IsSound (check id now s).0
unfolding check
check-IsSound id now s h = ground (arith, expire-IsSound now s h)

pub exchange-IsSound :
    (id : String) (now : ℕ) (s : Lifecycle) → IsSound s → IsSound (exchange id now s).0
unfolding exchange check
exchange-IsSound id now s h = ground (arith, expire-IsSound now s h)

pub finish-IsSound :
    (id : String) (result : AppResult (Unit {0})) (now : ℕ) (s : Lifecycle)
    → IsSound s
    → IsSound (finish id result now s).0
unfolding finish
finish-IsSound id (ok u) now s h =
    ground
      (arith, expire-IsSound now s h, terminal-IsSound connected none (expire now s) (inl refl))
finish-IsSound id (err e) now s h = ground (
  arith,
  expire-IsSound now s h,
  terminal-IsSound failed (some e) (expire now s) (inr (inr refl)),
)

pub committed-IsSound : (id : String) (s : Lifecycle) → IsSound s → IsSound (committed id s)
unfolding committed
committed-IsSound id s h = ground (arith, terminal-IsSound connected none s (inl refl))

pub cancel-IsSound :
    (id : String) (now : ℕ) (s : Lifecycle) → IsSound s → IsSound (cancel id now s).0
unfolding cancel check
cancel-IsSound id now s h =
    ground (
      arith,
      expire-IsSound now s h,
      terminal-IsSound cancelled none (expire now s) (inr (inl refl)),
    )

-- While one attempt is live, another identifier can do nothing: `check`, `exchanging`, `finish`,
-- `cancel` and `committed` leave the whole state as it is and report that they did not act, and a
-- second `begin` is refused.
pub stale_id_inert :
    (s : Lifecycle) (p : Pending) (id : String) (result : AppResult (Unit {0})) (now : ℕ)
    → s.pending ≡ some p
    → now < p.deadline
    → p.id ≢ id
    → (check id now s ≡ (s, err stale_error))
      × (exchange id now s ≡ (s, err stale_error))
      × (finish id result now s ≡ (s, false))
      × (cancel id now s ≡ (s, err stale_error))
      × (committed id s ≡ s)
unfolding check exchange finish cancel committed expire
stale_id_inert s p id result now live early other = (
  ground (arith, eq_iff p.id id),
  ground (arith, eq_iff p.id id),
  ground (arith, eq_iff p.id id),
  ground (arith, eq_iff p.id id),
  ground (arith, eq_iff p.id id),
)

-- Only one attempt at a time: `begin` succeeds exactly when no attempt is pending or the pending
-- one has reached its deadline. When it succeeds, the new attempt is the pending one, and the token
-- of the attempt that it replaces is cancelled.
pub begin_iff :
    (port : ℕ) (state : String) (timeout now started : ℕ) (fresh : String) (token : Token)
    (expires_at : String) (s : Lifecycle)
    → let (t, result) = begin port state timeout now started fresh token expires_at s in
      ((is_ok result ≡ true) ↔ ((p : Pending) → s.pending ≡ some p → p.deadline ≤ now))
      × (is_ok result ≡ true
          → (result ≡ ok (fresh, token, started + timeout))
            × (t.pending
                ≡ some (record {
                  id = fresh;
                  state = state;
                  port = port;
                  deadline = started + timeout;
                  callback_active = true;
                  cancel = token;
                }))
            × ((p : Pending) → s.pending ≡ some p → contains t.stopped p.cancel ≡ true))
unfolding begin expire terminal
begin_iff port state timeout now started fresh token expires_at s = elim (Option-cases s.pending) [
  | inl idle ↦
      ((λ h q found. cc, λ h. ground arith), λ h. (ground arith, ground arith, λ q found. cc))
  | inr (p, busy) ↦ (
    (λ h q found. ground arith, λ h. ground (arith, h p busy)),
    λ h. (ground arith, ground arith, λ q found. ground (arith, eq_iff p.id p.id)),
  )
]

-- After its deadline an attempt cannot be finished any more: a late success is reported as not
-- accepted, the attempt ends as failed with the time-out error, and its token is cancelled. Only
-- `committed`, which does not read the clock, still ends it as connected.
pub late_finish :
    (s : Lifecycle) (p : Pending) (a : AttemptStatus) (result : AppResult (Unit {0})) (now : ℕ)
    → s.pending ≡ some p
    → s.attempt ≡ some a
    → p.deadline ≤ now
    → ((finish p.id result now s).1 ≡ false)
      × ((finish p.id result now s).0.attempt
          ≡ some (record a { phase = failed; error = some timeout_error }))
      × (contains (finish p.id result now s).0.stopped p.cancel ≡ true)
      × ((committed p.id s).attempt ≡ some (record a { phase = connected; error = none }))
unfolding finish committed expire terminal
late_finish s p a result now busy shown late =
    (ground arith, ground arith, ground arith, ground (arith, eq_iff p.id p.id))
