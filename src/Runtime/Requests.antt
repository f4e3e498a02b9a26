-- ===== src/Runtime/Requests.antt =====
-- Remote ownership and stored requests: src-tauri/src/runtime/storage.rs, `impl Store`, from
-- `runtime_deletion_owner` on.
use desktop_ai_dashboard.Prelude.{
  ℕ, String, Bool, true, false, not, ◌&&◌, ◌||◌, Option, none, some, [], ◌∷◌, ◌==◌, string_eq,
  nat_eq, any, retain, is_some_and, if◌then◌else◌, AppResult, ok, err, reject_if, ok_or, stale,
}
use desktop_ai_dashboard.Host.{Host}
use desktop_ai_dashboard.Validation
use desktop_ai_dashboard.Runtime.Dto.{
  Capabilities, RuntimeStatus, Route, hermes, StoredRequest, is_final,
}
use desktop_ai_dashboard.Runtime.Storage.{
  RemoteOwner, same_owner, ownership_unresolved, runtime_config, runtime_status, require_binding,
  same_row, runtime_workspace, runtime_owners,
}
use desktop_ai_dashboard.Store.Tables.{
  Status, cancelled, MessageRow, RequestRow, Tables, Db, ◌>>=◌, ◌>>◌, query, lift, execute,
  transaction, update, count, find,
}
use desktop_ai_dashboard.Store.Chats.{awaits, touch}

-- `workspace.route != Route::Hermes`: the one route.
abbrev pub is_hermes : Route → Bool
is_hermes hermes = true

abbrev pub current_owner : RuntimeStatus → Capabilities → RemoteOwner
current_owner status caps = record {
  endpoint = status.config.endpoint;
  library_id = caps.library_id;
  device_id = caps.device_id;
}

abbrev pub value_of : Option RequestRow → Option StoredRequest
value_of none = none
value_of (some r) = some r.value

-- `UPDATE runtime_requests SET value=?1 WHERE request_id=?2`.
abbrev pub store_request : StoredRequest → Tables → Tables
store_request request t = record t {
  runtime_requests =
      update (λ r. r.request_id == request.progress.request_id) (λ r. record r { value = request })
        t.runtime_requests;
}

abbrev pub own_row : StoredRequest → RequestRow → Bool
own_row request r =
    r.request_id == request.progress.request_id && r.workspace_id == request.input.workspace_id

-- The rows that `runtime_finish` settles.
abbrev pub publishable : StoredRequest → MessageRow → Bool
publishable request m =
    awaits request.input.workspace_id request.progress.request_id m
    && m.generation == request.config_generation

-- `request.progress.run` is there and not terminal, or is not there and the request not cancelled.
abbrev pub unreconciled : StoredRequest → Bool
unreconciled request = elim request.progress.run [
  | some run ↦ not (is_final run.state)
  | none ↦ not (request.progress.state == "cancelled")
]

unfoldable pub runtime_save_request : StoredRequest → Db (Unit {0})
runtime_save_request request = do
  changed ← query λ t. ok (count (own_row request) t.runtime_requests)
  execute λ t. record t {
    runtime_requests =
        update (own_row request) (λ r. record r { value = request }) t.runtime_requests;
  }
  lift (reject_if (not (changed == 1)) stale)

module _ (host : Host) where
  unfoldable pub runtime_deletion_owner : String → Db (Option RemoteOwner)
  runtime_deletion_owner id = do
    owners ← runtime_owners host id
    elim owners [
      | [] ↦ lift (ok none)
      | owner ∷ others ↦ do
        status ← query runtime_status
        caps ← lift (require_binding status false)
        lift (
            if any (same_owner (current_owner status caps)) (owner ∷ others)
            then ok (some (current_owner status caps))
            else err ownership_unresolved)
    ]

  unfoldable pub runtime_acknowledge_deletion : String → RemoteOwner → ℕ → Db (Unit {0})
  runtime_acknowledge_deletion id owner generation = do
    saved ← query runtime_config
    lift (reject_if (not (saved.config.generation == generation)) stale)
    current ← runtime_deletion_owner id
    lift (reject_if (not (is_some_and current (same_owner owner))) stale)
    execute λ t. record t {
      runtime_owners =
          retain
            (λ r. not (
              same_row
                (record {
                  workspace_id = id;
                  endpoint = owner.endpoint;
                  library_id = owner.library_id;
                  device_id = owner.device_id;
                })
                r))
            t.runtime_owners;
    }

  unfoldable pub runtime_request : String → Tables → AppResult (Option StoredRequest)
  runtime_request request t = elim (Validation.id host request) [
    | err e ↦ err e
    | ok _ ↦ ok (value_of (find (λ r. r.request_id == request) t.runtime_requests))
  ]

  unfoldable pub runtime_pending : StoredRequest → Db (Unit {0})
  runtime_pending request = do
    saved ← query runtime_config
    route ← runtime_workspace host request.input.workspace_id
    lift (
        reject_if
          (not (saved.config.generation == request.config_generation)
            || not (route.generation == request.workspace_generation)
            || not (is_hermes route.route)
            || not saved.config.enabled)
          stale)
    query λ t.
        reject_if
          (not (any (awaits request.input.workspace_id request.progress.request_id) t.messages))
          stale

  unfoldable pub runtime_current : StoredRequest → Db (Unit {0})
  runtime_current request = if request.cancel_requested then lift (err stale) else (do
    stored ← query (runtime_request request.progress.request_id)
    value ← lift (ok_or stored stale)
    lift (reject_if value.cancel_requested stale)
    runtime_pending request)

  unfoldable pub runtime_finish_cancel : StoredRequest → Db (Unit {0})
  runtime_finish_cancel request = do
    runtime_pending request
    lift (reject_if (not request.cancel_requested || unreconciled request) stale)
    transaction (do
      execute λ t. record t {
        messages =
            update (awaits request.input.workspace_id request.progress.request_id)
              (λ m. record m {
                status = cancelled;
                content =
                    "Hermes stopped after reconciliation. Remote actions are not rolled back.";
              })
              t.messages;
      }
      execute (store_request request))

  unfoldable pub runtime_finish : StoredRequest → Status → String → String → Db (Unit {0})
  runtime_finish request status text now = do
    runtime_current request
    lift (Validation.text text 100000 true)
    transaction (do
      query λ t. reject_if (not (count (publishable request) t.messages == 1)) stale
      execute λ t. record t {
        messages =
            update (publishable request) (λ m. record m { status = status; content = text })
              t.messages;
      }
      execute (store_request request)
      execute (touch request.input.workspace_id now))
