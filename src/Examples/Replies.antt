-- ===== src/Examples/Replies.antt =====
-- Runs of the publication, cancellation and ownership of Hermes replies
-- (src-tauri/src/runtime/runs.rs and storage.rs).
use desktop_ai_dashboard.Runtime.Storage.{ownership_unresolved}
use desktop_ai_dashboard.Prelude.{
  Memᴰ, AppError, contains, inr, true, false, none, some, List, [], ◌∷◌, ◌≡◌, ◌≢◌, ◌⊎◌, refl, ok,
  err, any, nat_eq, string_eq, arith, stale,
}
use desktop_ai_dashboard.Prelude.Texts.{trim, trim_start, trim_end}
use desktop_ai_dashboard.Validation
use desktop_ai_dashboard.Validation.{max_version}
use desktop_ai_dashboard.Runtime.Dto.{
  Json, Limits, Capabilities, running, succeeded, Run, Event, delta, RunPoll, ToolRequest,
  StoredRequest, is_final, hermes, state_name,
}
use desktop_ai_dashboard.Runtime.Storage.{
  RemoteOwner, status_of, owners_of, require_binding, runtime_config, runtime_status,
  runtime_workspace, runtime_save_workspace, runtime_owners,
}
use desktop_ai_dashboard.Runtime.Requests.{
  current_owner, runtime_deletion_owner, runtime_acknowledge_deletion, runtime_request,
  runtime_save_request, runtime_pending, runtime_current, runtime_finish,
}
use desktop_ai_dashboard.Runtime.Polls.{
  validate_run, validate_page, validate_end, outcome, follow, shrink, add_page, merge,
}
use desktop_ai_dashboard.Runtime.Runs.{
  interrupt_for_quit, admit_receipt, terminal_workspace, apply_cancel_receipt, initialize_remote,
  settle, apply_poll,
}
use desktop_ai_dashboard.Runtime.Published.{
  Publication, apply_poll-messages, apply_poll-Publication,
}
use desktop_ai_dashboard.Runtime.Admission.{Session, session, local_binding}
use desktop_ai_dashboard.Core.{Core}
use desktop_ai_dashboard.Core.Stops.{request_cancel, store_stop}
use desktop_ai_dashboard.Core.Stopped.{request_cancel-refuses}
use desktop_ai_dashboard.Prelude.Maps.{get}
use desktop_ai_dashboard.Runtime.Interrupted.{interrupt_for_quit-ends}
use desktop_ai_dashboard.Runtime.Owners.{runtime_deletion_owner_cases}
use desktop_ai_dashboard.Runtime.Dto
use desktop_ai_dashboard.Runtime.Dto.{CancelReceipt}
use desktop_ai_dashboard.Store.Tables
use desktop_ai_dashboard.Store.Tables.{assistant, MessageRow, count, update, Tables}
use desktop_ai_dashboard.Store.Queries.{ChatWorkspace, workspace}
use desktop_ai_dashboard.Store.Chats.{awaits}
use desktop_ai_dashboard.Examples.Data.{host}
use desktop_ai_dashboard.Examples.RunData.{sizes, stored, reply, working, poll, early_poll, merged}

abbrev core : Core (Unit {0})
core = record {
  tables = working stored;
  keys = tt;
  runtime_requests = ("request", 7) ∷ [];
  synced_model_generation = some 3;
  check = none;
  discovery = none;
  tokens = 8;
  cancelled = [];
}

abbrev opened : Session
opened = record { endpoint = local_binding; generation = 3 }

abbrev cancelled : StoredRequest
cancelled = record stored { cancel_requested = true }

stop_stored :
    (request_cancel host (some true) "workspace" "request" core).0 ≡ ok (inr (opened, cancelled))
unfolding request_cancel store_stop session runtime_request Validation.id terminal_workspace
    workspace runtime_pending runtime_workspace runtime_config runtime_status runtime_save_request
stop_stored = refl

-- The reply is published from the copy that was read before the cancellation.
request_cancel-refuses_example :
    let d = (request_cancel host (some true) "workspace" "request" core).1 in
    (d.tables.messages ≡ reply ∷ [])
    × (contains d.cancelled 7 ≡ true)
    × (get "request" d.runtime_requests ≡ none)
    × (apply_poll host sizes "request" poll "4" d.tables ≡ (d.tables, err stale))
    × (runtime_finish host stored Tables.complete "Hi" "4" d.tables ≡ (d.tables, err stale))
unfolding get
request_cancel-refuses_example =
    request_cancel-refuses host sizes (some true) "workspace" "request" cancelled stored opened core
      poll Tables.complete "Hi" "4" (refl, tt) stop_stored refl

finished : (apply_poll host sizes "request" poll "4" (working stored)).1 ≡ ok (merged, [], true)
unfolding apply_poll runtime_request Validation.id Validation.text trim trim_start trim_end
    runtime_current runtime_pending runtime_workspace runtime_config workspace merge validate_run
    validate_page validate_end follow shrink add_page state_name initialize_remote
    runtime_save_workspace runtime_status settle outcome is_final runtime_finish
finished = refl

apply_poll-Publication_example :
    Publication host sizes merged poll
      (reply ∷ [])
      (apply_poll host sizes "request" poll "4" (working stored)).0.messages
apply_poll-Publication_example =
    apply_poll-Publication host sizes "request" poll "4" (working stored) merged [] finished

unfinished :
    (m : StoredRequest) (tools : List ToolRequest)
    → (apply_poll host sizes "request" early_poll "4" (working stored)).1 ≢ ok (m, tools, true)
unfolding apply_poll runtime_request Validation.id runtime_current runtime_pending runtime_workspace
    runtime_config workspace merge validate_run validate_page validate_end follow shrink add_page
    initialize_remote runtime_save_workspace runtime_status settle is_final runtime_save_request
    state_name
unfinished m tools h = ground arith

apply_poll-messages_example :
    (apply_poll host sizes "request" early_poll "4" (working stored)).0.messages ≡ reply ∷ []
apply_poll-messages_example =
    apply_poll-messages host sizes "request" early_poll "4" (working stored) unfinished

abbrev owner : RemoteOwner
owner = record {
  endpoint = "https://managed.forma.invalid";
  library_id = "library";
  device_id = "device";
}

runtime_deletion_owner_cases_example :
    let t = working stored in
    let done = runtime_deletion_owner host "workspace" t in
    let owners = owners_of host "workspace" t in
    let status = status_of t in
    (done.0 ≡ t)
    × (((e : AppError) × (workspace host "workspace" t ≡ err e) × (done.1 ≡ err e))
        ⊎ ((found : ChatWorkspace) × (workspace host "workspace" t ≡ ok found)
            × (((owners ≡ []) × (done.1 ≡ ok none))
                ⊎ ((owners ≢ [])
                    × (((e : AppError) × (require_binding status false ≡ err e) × (done.1 ≡ err e))
                        ⊎ ((c : Capabilities) × (require_binding status false ≡ ok c)
                            × ((Memᴰ (current_owner status c) owners
                                  × (done.1 ≡ ok (some (current_owner status c))))
                                ⊎ ((¬ Memᴰ (current_owner status c) owners)
                                    × (done.1 ≡ err ownership_unresolved)))))))))
runtime_deletion_owner_cases_example =
    runtime_deletion_owner_cases host "workspace" (working stored)

acknowledged : (runtime_acknowledge_deletion host "workspace" owner 3 (working stored)).1 ≡ ok tt
unfolding runtime_acknowledge_deletion runtime_config runtime_deletion_owner runtime_owners
    runtime_status require_binding workspace Validation.id
acknowledged = refl

abbrev closed : ChatWorkspace
closed = record {
  summary = record {
    id = "workspace";
    title = "New workspace";
    created_at = "1";
    updated_at = "1";
    message_count = 1;
  };
  draft = "";
  draft_version = 0;
  messages =
      record {
        id = "m2";
        role = assistant;
        content =
            "Reply interrupted when Forma quit. Previously sent provider work and external actions were not rolled back.";
        status = Tables.error;
        created_at = "2";
        request_id = some "request";
      }
      ∷ [];
}

stopped : (interrupt_for_quit host "workspace" "request" (working stored)).1 ≡ ok closed
unfolding interrupt_for_quit Validation.id workspace runtime_request
stopped = refl

interrupt_for_quit-ends_example :
    let u = (interrupt_for_quit host "workspace" "request" (working stored)).0 in
    (any (awaits "workspace" "request") u.messages ≡ false)
    × (u.messages
        ≡ update
            (awaits "workspace" "request")
            (λ m. record m {
              status = Tables.error;
              content =
                  "Reply interrupted when Forma quit. Previously sent provider work and external actions were not rolled back.";
            })
            (reply ∷ []))
    × (u.request_ids ≡ (working stored).request_ids)
interrupt_for_quit-ends_example =
    interrupt_for_quit-ends host "workspace" "request" (working stored) closed stopped

abbrev receipt : CancelReceipt
receipt = record { id = "request"; state = Dto.cancelled; admitted = false; run = none }

abbrev reconciled : StoredRequest
reconciled = record cancelled { progress = record cancelled.progress { state = "cancelled" } }

accepted :
    (apply_cancel_receipt host cancelled receipt (working cancelled)).1 ≡ ok (reconciled, none)
unfolding apply_cancel_receipt admit_receipt runtime_pending runtime_workspace runtime_config
    workspace Validation.id runtime_save_request
accepted = refl
