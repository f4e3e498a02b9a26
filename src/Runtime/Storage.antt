-- ===== src/Runtime/Storage.antt =====
-- The runtime's part of the tables: src-tauri/src/runtime/storage.rs, `impl Store`, the errors of
-- runtime/transport.rs and `require_binding` of runtime.rs. A reader of a JSON column cannot fail
-- here, since the columns hold the values themselves.
use desktop_ai_dashboard.Prelude.{
  ℕ, String, Bool, true, false, not, ◌&&◌, ◌||◌, Option, none, some, List, [], ◌∷◌, ◌++◌, ◌==◌, map,
  string_eq, nat_eq, any, retain, if◌then◌else◌, AppError, AppResult, ok, err, reject_if, ok_or,
  stale,
}
use desktop_ai_dashboard.Host.{Host}
use desktop_ai_dashboard.Runtime.Dto.{
  Capabilities, RuntimeModel, StoredRuntime, RuntimeStatus, hermes, RuntimeWorkspace,
}
use desktop_ai_dashboard.Store.Tables.{
  cancelled, is_pending, RouteRow, OwnerRow, Tables, Db, ◌>>=◌, ◌>>◌, query, lift, execute,
  transaction, update, find,
}
use desktop_ai_dashboard.Store.Queries.{workspace}
use desktop_ai_dashboard.Store.Chats.{has_runtime}

abbrev pub protocol : AppError
protocol = record {
  code = "runtime_protocol";
  message = "Managed Hermes returned an unsupported or unsafe response. No fallback was used.";
}

abbrev pub not_ready : AppError
not_ready = record {
  code = "runtime_not_ready";
  message = "Hermes is not ready. Check your model configuration or retry starting Hermes.";
}

abbrev pub ownership_unresolved : AppError
ownership_unresolved = record {
  code = "runtime_ownership_unresolved";
  message =
      "This workspace may still own remote schedules at a previous or unknown runtime binding. Reconnect and verify the original runtime/library/device before deleting; local data was kept.";
}

pub record RemoteOwner : Type 0 where
  pub endpoint : String
  pub library_id : String
  pub device_id : String

abbrev pub same_owner : RemoteOwner → RemoteOwner → Bool
same_owner a b =
    a.endpoint == b.endpoint && a.library_id == b.library_id && a.device_id == b.device_id

abbrev pub or_else {ℓ} : {A : Type ℓ} → Option A → Option A → Option A
or_else none o = o
or_else (some a) o = some a

abbrev pub is_empty {ℓ} : {A : Type ℓ} → List A → Bool
is_empty [] = true
is_empty (x ∷ xs) = false

unfoldable pub runtime_config : Tables → AppResult StoredRuntime
runtime_config t = ok t.runtime_config

-- `EXISTS(SELECT 1 FROM runtime_legacy_owners) OR EXISTS(SELECT 1 FROM runtime_legacy_requests)`.
abbrev pub legacy_message : Tables → Option String
legacy_message t =
    if not (is_empty t.legacy_owners) || not (is_empty t.legacy_requests)
    then some
        "Previous remote work was archived locally. It was not cancelled or replayed by managed Hermes."
    else none

abbrev pub status_of : Tables → RuntimeStatus
status_of t = record {
  config = t.runtime_config.config;
  state = t.runtime_config.state;
  message = or_else t.runtime_config.message (legacy_message t);
  generation = t.runtime_config.config.generation;
  verified = t.runtime_config.config.verified;
  capabilities = t.capabilities;
  models = t.models;
}

unfoldable pub runtime_status : Tables → AppResult RuntimeStatus
runtime_status t = ok (status_of t)

-- `require_binding`: the capabilities of a verified runtime, and of a ready one if asked.
unfoldable pub require_binding : RuntimeStatus → Bool → AppResult Capabilities
require_binding status require_ready = elim status.capabilities [
  | none ↦ err not_ready
  | some caps ↦
      if not status.config.verified
        || require_ready
          && (not (status.state == "ready") || not caps.runtime.ready || caps.model_origin == "")
      then err not_ready
      else ok caps
]

unfoldable pub runtime_save_config : StoredRuntime → Db (Unit {0})
runtime_save_config value = transaction (
    execute λ t. record t {
      runtime_config = value;
      models = [];
      messages =
          update (λ m. is_pending m.status && has_runtime t.runtime_requests m.request_id)
            (λ m. record m {
              status = cancelled;
              content = "Hermes reply fenced because the runtime configuration changed.";
            })
            t.messages;
    })

unfoldable pub runtime_checked : StoredRuntime → Capabilities → List RuntimeModel → Db (Unit {0})
runtime_checked value capabilities models =
    execute
      λ t. record t { runtime_config = value; capabilities = some capabilities; models = models }

abbrev pub owner_row : String → String → Capabilities → OwnerRow
owner_row id endpoint caps = record {
  workspace_id = id;
  endpoint = endpoint;
  library_id = caps.library_id;
  device_id = caps.device_id;
}

abbrev pub same_row : OwnerRow → OwnerRow → Bool
same_row a b =
    a.workspace_id == b.workspace_id
    && a.endpoint == b.endpoint
    && a.library_id == b.library_id
    && a.device_id == b.device_id

-- `INSERT OR IGNORE` on the primary key of all four columns.
abbrev pub insert_or_ignore : OwnerRow → List OwnerRow → List OwnerRow
insert_or_ignore r rows = if any (same_row r) rows then rows else rows ++ r ∷ []

-- `INSERT … ON CONFLICT(workspace_id) DO UPDATE`.
abbrev pub upsert : RouteRow → List RouteRow → List RouteRow
upsert r rows =
    if any (λ s. s.workspace_id == r.workspace_id) rows
    then update (λ s. s.workspace_id == r.workspace_id) (λ s. r) rows
    else rows ++ r ∷ []

-- `if workspace.remote_initialized { … }` of `runtime_save_workspace`.
abbrev pub record_session : RuntimeWorkspace → RuntimeStatus → Db (Unit {0})
record_session value status =
    if value.remote_initialized
    then (do
      caps ← lift (ok_or status.capabilities stale)
      execute λ t. record t {
        runtime_owners =
            insert_or_ignore (owner_row value.workspace_id status.config.endpoint caps)
              t.runtime_owners;
        runtime_sessions =
            insert_or_ignore (owner_row value.workspace_id status.config.endpoint caps)
              t.runtime_sessions;
      })
    else lift (ok tt)

module _ (host : Host) where
  unfoldable pub runtime_save_workspace : RuntimeWorkspace → Db (Unit {0})
  runtime_save_workspace value = do
    _ ← query (workspace host value.workspace_id)
    status ← query runtime_status
    transaction (do
      execute λ t. record t {
        runtime_workspaces =
            upsert
              (record {
                workspace_id = value.workspace_id;
                value = value;
                endpoint_generation = status.config.endpoint;
              })
              t.runtime_workspaces;
      }
      record_session value status)

  -- `EXISTS(SELECT 1 FROM runtime_sessions WHERE …)` for the current library and device.
  abbrev pub has_session : String → Tables → Bool
  has_session id t = elim t.capabilities [
    | none ↦ false
    | some caps ↦
        any (same_row (owner_row id t.runtime_config.config.endpoint caps)) t.runtime_sessions
  ]

  abbrev pub route_of : String → Tables → Option RouteRow
  route_of id t = find (λ r. r.workspace_id == id) t.runtime_workspaces

  abbrev pub default_workspace : String → Tables → RuntimeWorkspace
  default_workspace id t = record {
    workspace_id = id;
    route = hermes;
    model_id = t.provider.config.model;
    generation = 0;
    remote_initialized = false;
  }

  -- A workspace without a row gets one.
  unfoldable pub runtime_workspace : String → Db RuntimeWorkspace
  runtime_workspace id = do
    _ ← query (workspace host id)
    row ← query λ t. ok (route_of id t)
    elim row [
      | some r ↦
          query λ t. ok (record r.value { route = hermes; remote_initialized = has_session id t })
      | none ↦ do
        value ← query λ t. ok (default_workspace id t)
        runtime_save_workspace value
        lift (ok value)
    ]

  unfoldable pub runtime_own_workspace : String → ℕ → Db (Unit {0})
  runtime_own_workspace id generation = do
    _ ← query (workspace host id)
    status ← query runtime_status
    caps ← lift (require_binding status false)
    lift (reject_if (not (status.config.generation == generation)) stale)
    execute λ t. record t {
      runtime_owners = insert_or_ignore (owner_row id status.config.endpoint caps) t.runtime_owners;
    }

  abbrev pub owners_of : String → Tables → List RemoteOwner
  owners_of id t =
      map
        (λ r. record { endpoint = r.endpoint; library_id = r.library_id; device_id = r.device_id })
        (retain (λ r. r.workspace_id == id) t.runtime_owners)

  unfoldable pub runtime_owners : String → Db (List RemoteOwner)
  runtime_owners id = do _ ← query (workspace host id); query λ t. ok (owners_of id t)
