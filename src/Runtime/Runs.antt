-- ===== src/Runtime/Runs.antt =====
-- One run of Hermes, as the desktop reconciles it: src-tauri/src/runtime/runs.rs, the parts that
-- hold the lock on the store. The requests between these parts are not modelled.
use desktop_ai_dashboard.Prelude.{
  String, Bool, true, false, not, ◌&&◌, ◌||◌, Option, none, some, List, ◌==◌, string_eq, nat_eq,
  any, is_some, is_some_and, if◌then◌else◌, ok, reject_if, ok_or, missing,
}
use desktop_ai_dashboard.Host.{Host}
use desktop_ai_dashboard.Validation
use desktop_ai_dashboard.Runtime.Dto.{
  Run, is_final, same_state, state_name, cancelled, RunPoll, ToolRequest, CancelReceipt,
  StoredRequest, Json,
}
use desktop_ai_dashboard.Runtime.Storage.{protocol, runtime_workspace, runtime_save_workspace}
use desktop_ai_dashboard.Runtime.Requests.{
  runtime_request, runtime_save_request, runtime_pending, runtime_current, runtime_finish,
}
use desktop_ai_dashboard.Runtime.Polls.{merge, outcome, validate_receipt}
use desktop_ai_dashboard.Store.Tables
use desktop_ai_dashboard.Store.Tables.{
  Status, is_pending, is_complete, Role, MessageRow, Tables, Db, ◌>>=◌, ◌>>◌, query, lift, execute,
  transaction, update, count,
}
use desktop_ai_dashboard.Store.Queries.{ChatWorkspace, ChatMessage, workspace}
use desktop_ai_dashboard.Store.Chats.{awaits}

abbrev pub bears : String → ChatMessage → Bool
bears request m = is_some_and m.request_id (λ r. r == request)

abbrev pub same_bool : Bool → Bool → Bool
same_bool true b = b
same_bool false b = not b

module _ (host : Host) where
  -- `workspace.remote_initialized = true` and `runtime_save_workspace`.
  unfoldable pub initialize_remote : String → Db (Unit {0})
  initialize_remote id = do
    route ← runtime_workspace host id
    runtime_save_workspace host (record route { remote_initialized = true })

  -- The end of `apply_poll`: publish a run that has ended, or save the progress.
  unfoldable pub settle : StoredRequest → RunPoll → String → Db (Unit {0})
  settle request poll now =
      if is_final poll.run.state && not poll.has_more
      then (do
        (status, text) ← lift (outcome poll.run)
        runtime_finish host request status text now)
      else runtime_save_request request

  unfoldable pub terminal_workspace : String → String → Db (Option ChatWorkspace)
  terminal_workspace id request = do
    current ← query (workspace host id)
    lift (
        ok (
          if any (λ m. bears request m && is_pending m.status) current.messages
          then none
          else some current))

  abbrev pub own_request : String → Option StoredRequest → Bool
  own_request id request = not (is_some_and request (λ r. not (r.input.workspace_id == id)))

  -- `request.cancel_requested = true` and the state of the progress.
  abbrev pub interrupted_request : StoredRequest → StoredRequest
  interrupted_request request = record request {
    cancel_requested = true;
    progress = record request.progress { state = "interrupted" };
  }

  -- The transaction of `interrupt_for_quit`.
  abbrev pub interrupt : String → String → Option StoredRequest → Tables → Tables
  interrupt id request stored t = record t {
    messages =
        update (awaits id request)
          (λ m. record m {
            status = Tables.error;
            content =
                "Reply interrupted when Forma quit. Previously sent provider work and external actions were not rolled back.";
          })
          t.messages;
    runtime_requests =
        if count (awaits id request) t.messages == 0 then t.runtime_requests else elim stored [
          | none ↦ t.runtime_requests
          | some value ↦
              update (λ r. r.request_id == request)
                (λ r. record r { value = interrupted_request value }) t.runtime_requests
        ];
  }

  unfoldable pub interrupt_for_quit : String → String → Db ChatWorkspace
  interrupt_for_quit id request = do
    lift (Validation.id host id)
    lift (Validation.id host request)
    current ← query (workspace host id)
    lift (reject_if (not (any (bears request) current.messages)) missing)
    stored ← query (runtime_request host request)
    lift (reject_if (not (own_request id stored)) missing)
    execute (interrupt id request stored)
    query (workspace host id)

  -- What `apply_cancel_receipt` makes of the request.
  abbrev pub after_receipt : StoredRequest → Option Run → StoredRequest
  after_receipt request none = record request {
    progress = record request.progress { state = "cancelled" };
  }
  after_receipt request (some run) = record request {
    progress = record request.progress { state = state_name run.state; run = some run };
  }

  unfoldable pub admit_receipt : StoredRequest → CancelReceipt → Db (Unit {0})
  admit_receipt request receipt = elim receipt.run [
    | none ↦ lift (reject_if (not (same_state receipt.state cancelled)) protocol)
    | some run ↦ do
      lift (validate_receipt request receipt run)
      initialize_remote request.input.workspace_id
  ]

  unfoldable pub apply_cancel_receipt :
      StoredRequest → CancelReceipt → Db (StoredRequest × Option Run)
  apply_cancel_receipt request receipt = do
    runtime_pending host request
    lift (
        reject_if
          (not request.cancel_requested
            || not (receipt.id == request.progress.request_id)
            || not (same_bool receipt.admitted (is_some receipt.run)))
          protocol)
    admit_receipt request receipt
    runtime_save_request (after_receipt request receipt.run)
    lift (ok (after_receipt request receipt.run, receipt.run))

  module _ (json : Json) where
    unfoldable pub apply_poll :
        String → RunPoll → String → Db (StoredRequest × List ToolRequest × Bool)
    apply_poll id poll now = do
      stored ← query (runtime_request host id)
      request ← lift (ok_or stored missing)
      runtime_current host request
      merged ← lift (merge json id request poll)
      initialize_remote merged.input.workspace_id
      settle merged poll now
      lift (ok (merged, poll.tool_requests, is_final poll.run.state && not poll.has_more))
