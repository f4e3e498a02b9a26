-- ===== src/Runtime/Interrupted.antt =====
-- Interruption and cancellation of a run: `interrupt_for_quit` and `apply_cancel_receipt` of
-- src-tauri/src/runtime/runs.rs.
use desktop_ai_dashboard.Prelude.{
  String, Bool, true, false, not, ◌||◌, Option, none, some, List, [], ◌∷◌, ◌==◌, ◌≡◌, refl,
  string_eq, nat_eq, any, is_some, arith, Bool-cases, done-cases, Option-cases, inl, inr, eq_iff,
  ok,
}
use desktop_ai_dashboard.Host.{Host}
use desktop_ai_dashboard.Runtime.Dto.{
  Run, CancelReceipt, StoredRequest, RunState, cancelled, same_state_iff,
}
use desktop_ai_dashboard.Runtime.Requests.{runtime_save_request, runtime_pending}
use desktop_ai_dashboard.Runtime.Polls.{validate_receipt}
use desktop_ai_dashboard.Runtime.Runs.{
  same_bool, interrupt_for_quit, after_receipt, admit_receipt, apply_cancel_receipt,
}
use desktop_ai_dashboard.Runtime.Fences.{runtime_pending-IsRouted, initialize_remote-IsRouted}
use desktop_ai_dashboard.Store.Tables
use desktop_ai_dashboard.Store.Tables.{MessageRow, RequestRow, Tables, Db, update, count, find}
use desktop_ai_dashboard.Store.Queries.{ChatWorkspace}
use desktop_ai_dashboard.Store.Chats.{awaits}

none_awaits :
    (id request content : String) (ms : List MessageRow)
    → any
        (awaits id request)
        (update (awaits id request) (λ m. record m { status = Tables.error; content = content }) ms)
      ≡ false
none_awaits id request content [] = refl
none_awaits id request content (m ∷ ms) = ground (arith, none_awaits id request content ms)

abbrev pub state_of : Option Run → RunState
state_of none = cancelled
state_of (some run) = run.state

module _ (host : Host) where
  -- When `interrupt_for_quit` succeeds, no reply of the request is pending in the workspace any
  -- more, only its pending rows have changed, and the request identifiers stay on record.
  pub interrupt_for_quit-ends :
      (id request : String) (t : Tables) (c : ChatWorkspace)
      → (interrupt_for_quit host id request t).1 ≡ ok c
      → (any (awaits id request) (interrupt_for_quit host id request t).0.messages ≡ false)
        × ((interrupt_for_quit host id request t).0.messages
            ≡ update
                (awaits id request)
                (λ m. record m {
                  status = Tables.error;
                  content =
                      "Reply interrupted when Forma quit. Previously sent provider work and external actions were not rolled back.";
                })
                t.messages)
        × ((interrupt_for_quit host id request t).0.request_ids ≡ t.request_ids)
  unfolding interrupt_for_quit
  interrupt_for_quit-ends id request t c h = ground (
    arith,
    none_awaits id request
        "Reply interrupted when Forma quit. Previously sent provider work and external actions were not rolled back."
        t.messages,
  )

  admit_receipt-messages :
      (request : StoredRequest) (receipt : CancelReceipt) (t : Tables)
      → (admit_receipt host request receipt t).0.messages ≡ t.messages
  unfolding admit_receipt
  admit_receipt-messages request receipt t =
      ground (arith, initialize_remote-IsRouted host request.input.workspace_id t)

  -- A receipt of a cancellation never settles a message, whatever it holds and whether it is
  -- accepted or not.
  pub apply_cancel_receipt-messages :
      (request : StoredRequest) (receipt : CancelReceipt) (t : Tables)
      → (apply_cancel_receipt host request receipt t).0.messages ≡ t.messages
  unfolding apply_cancel_receipt runtime_save_request
  apply_cancel_receipt-messages request receipt t =
      let u = (runtime_pending host request t).0 in
      ground
        (arith, runtime_pending-IsRouted host request t, admit_receipt-messages request receipt u)

  admitted_state :
      (request : StoredRequest) (receipt : CancelReceipt) (t : Tables)
      → (admit_receipt host request receipt t).1 ≡ ok tt
      → receipt.state ≡ state_of receipt.run
  unfolding admit_receipt validate_receipt
  admitted_state request receipt t h = elim (Option-cases receipt.run) [
    | inl absent ↦ ground (arith, same_state_iff receipt.state cancelled)
    | inr (shown, there) ↦ ground (arith, same_state_iff receipt.state shown.state)
  ]

  abbrev mismatched : StoredRequest → CancelReceipt → Bool
  mismatched request receipt =
      not request.cancel_requested
      || not (receipt.id == request.progress.request_id)
      || not (same_bool receipt.admitted (is_some receipt.run))

  matched :
      (request : StoredRequest) (receipt : CancelReceipt)
      → mismatched request receipt ≡ false
      → (request.cancel_requested ≡ true)
        × (receipt.id ≡ request.progress.request_id)
        × (receipt.admitted ≡ is_some receipt.run)
  matched request receipt h = ground (arith, eq_iff receipt.id request.progress.request_id)

  after-stays_cancelled :
      (request : StoredRequest) (run : Option Run)
      → request.cancel_requested ≡ true
      → (after_receipt host request run).cancel_requested ≡ true
  after-stays_cancelled request none h = h
  after-stays_cancelled request (some run) h = h

  -- A receipt is accepted only for a request that is marked as cancelled, under its own identifier,
  -- and if it says of the admission what it shows; without a run its state is `cancelled`, and with
  -- one it has the state of the run. The saved request stays marked as cancelled.
  pub accepted_receipt :
      (request saved : StoredRequest) (receipt : CancelReceipt) (run : Option Run) (t : Tables)
      → (apply_cancel_receipt host request receipt t).1 ≡ ok (saved, run)
      → (request.cancel_requested ≡ true)
        × (receipt.id ≡ request.progress.request_id)
        × (receipt.admitted ≡ is_some receipt.run)
        × (run ≡ receipt.run)
        × (saved.cancel_requested ≡ true)
        × (receipt.state ≡ state_of run)
  unfolding apply_cancel_receipt
  accepted_receipt request saved receipt run t h =
      let u = (runtime_pending host request t).0 in
      elim (done-cases (runtime_pending host request t).1) [
        | inr (e, old) ↦ absurd (ground arith)
        | inl current ↦ elim (Bool-cases (mismatched request receipt)) [
          | inl wrong ↦ absurd (ground arith)
          | inr fits ↦ elim (done-cases (admit_receipt host request receipt u).1) [
            | inr (e, bad) ↦ absurd (ground arith)
            | inl admitted ↦
                let (marked, own, told) = matched request receipt fits in
                let kept : (saved ≡ after_receipt host request receipt.run) × (run ≡ receipt.run) =
                  ground arith in
                (
                  marked,
                  own,
                  told,
                  kept.1,
                  rw kept.0 (after-stays_cancelled request receipt.run marked),
                  rw kept.1 (admitted_state request receipt u admitted),
                )
          ]
        ]
      ]
