-- ===== src/Runtime/Polls.antt =====
-- What the desktop accepts of Hermes: the checks of src-tauri/src/runtime/runs.rs on runs, pages of
-- events and receipts, and the arithmetic of `apply_poll` on the progress.
use Prim.Native.String.{len}
use desktop_ai_dashboard.Prelude.{
  ℕ, ◌+◌, ◌-◌, String, not, ◌&&◌, ◌||◌, none, some, List, [], ◌∷◌, ◌++◌, ◌==◌, string_eq, nat_eq,
  ltb, leb, length, drop, is_some, is_some_and, if◌then◌else◌, AppResult, ◌>>=◌, ◌>>◌, ok, err,
  reject_if,
}
use desktop_ai_dashboard.Validation.{max_version}
use desktop_ai_dashboard.Runtime.Dto.{
  Run, succeeded, cancelled, interrupted, blocked, same_state, state_name, Event, RunPoll,
  CancelReceipt, RuntimeProgress, StoredRequest, Json,
}
use desktop_ai_dashboard.Runtime.Storage.{protocol}
use desktop_ai_dashboard.Store.Tables
use desktop_ai_dashboard.Store.Tables.{Status}

abbrev pub hermes_revision : String
hermes_revision = "349e6611a1c5d846a865368dd6c386b78edd1a54"

unfoldable pub validate_run : StoredRequest → Run → AppResult (Unit {0})
validate_run request run =
    reject_if
      (not (run.id == request.progress.request_id)
        || not (run.workspace_id == request.input.workspace_id)
        || not (run.model_id == request.input.model_id)
        || not (run.origin == "operator")
        || is_some run.schedule_id
        || not (run.hermes_revision == hermes_revision)
        || ltb max_version run.last_seq
        || is_some_and run.final_message (λ text. ltb 100000 (len text)))
      protocol

-- The bounds of `apply_poll` on one page.
unfoldable pub validate_page : StoredRequest → RunPoll → AppResult (Unit {0})
validate_page request poll =
    reject_if
      (ltb 200 (length poll.events)
        || ltb 12 (length poll.tool_requests)
        || ltb poll.next_after request.progress.cursor
        || ltb poll.run.last_seq poll.next_after)
      protocol

-- The check behind the loop over the events, whose last one is `last`.
unfoldable pub validate_end : RunPoll → ℕ → AppResult (Unit {0})
validate_end poll last =
    reject_if
      (not (last == poll.next_after) || not poll.has_more && not (last == poll.run.last_seq))
      protocol

-- `status` and `text` of a run that has ended.
unfoldable pub outcome : Run → AppResult (Status × String)
outcome run = elim run.state [
  | succeeded ↦ elim run.final_message [
    | none ↦ err protocol
    | some text ↦ ok (Tables.complete, text)
  ]
  | cancelled ↦ ok (Tables.cancelled, "Hermes run cancelled. Remote actions are not rolled back.")
  | blocked ↦
      ok
        (Tables.error, "Hermes run blocked: its required runtime, device or grant was unavailable.")
  | interrupted ↦
      ok (Tables.error, "Hermes run interrupted. Partial output was not published as success.")
  | _ ↦ ok (Tables.error, "Hermes run failed. No direct provider fallback was used.")
]

-- `request.progress.events.drain(..len - 200)` if there are more than 200.
abbrev pub newest : List Event → List Event
newest events = if ltb 200 (length events) then drop (length events - 200) events else events

abbrev pub progress_limit : ℕ
progress_limit = 393216

-- `validate_run` and the check on the state of a receipt that carries a run.
unfoldable pub validate_receipt : StoredRequest → CancelReceipt → Run → AppResult (Unit {0})
validate_receipt request receipt run = do
  validate_run request run
  reject_if (not (same_state receipt.state run.state)) protocol

module _ (json : Json) where
  -- The loop over `poll.events`: the last sequence number.
  unfoldable pub follow : String → ℕ → List Event → AppResult ℕ
  follow run cursor [] = ok cursor
  follow run cursor (event ∷ events) =
      let rest = follow run event.seq events in
      if not (event.run_id == run)
        || not (event.seq == cursor + 1)
        || ltb 100000 (json.event_size event)
      then err protocol
      else rest

  -- The loop that drops the oldest events until the progress fits.
  unfoldable pub shrink : ℕ → List Event → AppResult (List Event)
  shrink bytes [] = if ltb progress_limit bytes then err protocol else ok []
  shrink bytes (event ∷ events) =
      let rest = shrink (bytes - json.event_size event) events in
      if leb bytes progress_limit then ok (event ∷ events) else rest

  -- The progress with the events of the page; `last` is their last sequence number.
  abbrev pub extended : RuntimeProgress → RunPoll → ℕ → RuntimeProgress
  extended progress poll last = record progress {
    cursor = last;
    state = state_name poll.run.state;
    events = newest (progress.events ++ poll.events);
    run = some poll.run;
  }

  unfoldable pub add_page : StoredRequest → RunPoll → ℕ → AppResult StoredRequest
  add_page request poll last = do
    let progress = extended request.progress poll last
    events ← shrink (json.progress_size progress) progress.events
    ok (record request { progress = record progress { events = events } })

  -- `apply_poll` between its two uses of the tables: the request with the page added.
  unfoldable pub merge : String → StoredRequest → RunPoll → AppResult StoredRequest
  merge id request poll = do
    validate_run request poll.run
    validate_page request poll
    last ← follow id request.progress.cursor poll.events
    validate_end poll last
    add_page request poll last
