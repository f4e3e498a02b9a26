-- ===== src/Connectors/Loopback/Waiting.antt =====
-- The loop of `wait_for_callback` in src-tauri/src/connectors/loopback.rs.
use desktop_ai_dashboard.Prelude.{
  ℕ, ◌≤◌, String, Bool, true, false, Option, none, some, List, [], ◌∷◌, ◌++◌, ◌≡◌, ◌≢◌, ◌⊎◌, inl,
  inr, refl, leb, arith, AppError, AppResult, ok, err, if◌then◌else◌, Option-cases, ap,
}
use desktop_ai_dashboard.Connectors.Lifecycle.{stale_error, timeout_error}
use desktop_ai_dashboard.Connectors.Loopback.Requests.{ParsedCallback, ignore, denied, code_given}

-- What `accept` gives in one round: a peer, with what its request parses to, or no peer.
pub data Accepted : Type 0 where
  peer : Bool → ParsedCallback → Accepted
  would_block : Accepted
  broken : Accepted

pub record Round : Type 0 where
  pub cancelled : Bool
  pub now : ℕ
  pub accepted : Accepted

abbrev pub bind_error : AppError
bind_error = record {
  code = "connector_loopback";
  message = "The temporary sign-in callback listener is unavailable.";
}

abbrev pub denied_error : AppError
denied_error = record {
  code = "connector_denied";
  message = "Google sign-in was declined. You can try again.";
}

-- What is made of `accept`; none if the loop goes on.
abbrev pub answer : Accepted → Option (AppResult String)
answer (peer true (code_given code)) = some (ok code)
answer (peer true denied) = some (err denied_error)
answer (peer true ignore) = none
answer (peer false callback) = none
answer would_block = none
answer broken = some (err bind_error)

-- The result of a round, or none if the loop goes on.
unfoldable pub round : ℕ → Round → Option (AppResult String)
round deadline r =
    if r.cancelled
    then some (err stale_error)
    else if leb deadline r.now
    then some (err timeout_error)
    else answer r.accepted

unfoldable pub wait_for_callback : ℕ → List Round → Option (AppResult String)
wait_for_callback deadline [] = none
wait_for_callback deadline (r ∷ rounds) =
    let later = wait_for_callback deadline rounds in
    elim (round deadline r) [ some result ↦ some result | none ↦ later ]

-- The loop ends: once a round comes at or after the deadline, or sees the cancellation, there is a
-- result, whatever requests came before and whatever comes after.
pub wait_for_callback_ends :
    (deadline : ℕ) (before after : List Round) (r : Round)
    → ((deadline ≤ r.now) ⊎ (r.cancelled ≡ true))
    → wait_for_callback deadline (before ++ r ∷ after) ≢ none
unfolding wait_for_callback round
wait_for_callback_ends deadline [] after r h = ground arith
wait_for_callback_ends deadline (s ∷ before) after r h =
    ground (arith, wait_for_callback_ends deadline before after r h)

answer_code : (a : Accepted) (c : String) → answer a ≡ some (ok c) → a ≡ peer true (code_given c)
answer_code (peer true (code_given code)) c h = cc
answer_code (peer true denied) c h = cc
answer_code (peer true ignore) c h = cc
answer_code (peer false callback) c h = cc
answer_code would_block c h = cc
answer_code broken c h = cc

round_code :
    (deadline : ℕ) (r : Round) (c : String)
    → round deadline r ≡ some (ok c)
    → (r.cancelled ≡ false) × (leb deadline r.now ≡ false) × (r.accepted ≡ peer true (code_given c))
unfolding round
round_code deadline r c h = ground (arith, answer_code r.accepted c)

-- A code that the loop returns was given by a local peer in one round, in time and before a
-- cancellation, and in every round before it nothing had ended the loop.
pub wait_for_callback_code :
    (deadline : ℕ) (rounds : List Round) (c : String)
    → wait_for_callback deadline rounds ≡ some (ok c)
    → (before : List Round) × (r : Round) × (after : List Round) × (rounds ≡ before ++ r ∷ after)
      × (r.cancelled ≡ false)
      × (leb deadline r.now ≡ false)
      × (r.accepted ≡ peer true (code_given c))
unfolding wait_for_callback
wait_for_callback_code deadline [] c h = cc
wait_for_callback_code deadline (r ∷ rounds) c h = elim (Option-cases (round deadline r)) [
  | inl e ↦
      let (before, s, after, p, l, t, g) =
        wait_for_callback_code deadline rounds c (ground arith) in
      (r ∷ before, s, after, ap (λ u. r ∷ u) p, l, t, g)
  | inr (result, e) ↦
      let (live, timely, given) = round_code deadline r c (ground arith) in
      ([], r, rounds, refl, live, timely, given)
]
