-- ===== src/Runtime/Admission.antt =====
-- Admitting a message to Hermes: `start` of src-tauri/src/runtime/runs.rs, and `session` and the
-- check on capabilities of runtime.rs. `alive` is the managed controller: none before it has
-- started, and then whether it is alive.
use desktop_ai_dashboard.Prelude.{
  ℕ, ◌+◌, String, Bool, true, false, not, ◌&&◌, ◌||◌, Option, none, some, List, [], ◌==◌, map,
  string_eq, nat_eq, ltb, leb, min, any, retain, length, if◌then◌else◌, AppError, AppResult, ok,
  err, reject_if, ok_or,
}
use desktop_ai_dashboard.Host.{Host}
use desktop_ai_dashboard.Validation
use desktop_ai_dashboard.Runtime.Dto.{
  Limits, Budgets, RuntimeWorkspace, HistoryMessage, StoredRequest, Json,
}
use desktop_ai_dashboard.Runtime.Storage.{
  protocol, not_ready, runtime_config, runtime_status, require_binding, runtime_workspace,
}
use desktop_ai_dashboard.Store.Tables.{
  Role, user, assistant, is_pending, is_complete, Db, ◌>>=◌, ◌>>◌, query, lift, count,
}
use desktop_ai_dashboard.Store.Queries.{ChatMessage, ChatWorkspace, workspace}
use desktop_ai_dashboard.Store.Chats.{start_captured}

pub record Session : Type 0 where
  pub endpoint : String
  pub generation : ℕ

abbrev pub local_binding : String
local_binding = "https://managed.forma.invalid"

abbrev pub runs_busy : AppError
runs_busy = record {
  code = "busy";
  message = "Finish or reconcile pending runs before admitting more work.";
}

abbrev pub model_unavailable : AppError
model_unavailable = record {
  code = "model_unavailable";
  message = "Choose an available Hermes model for this workspace.";
}

abbrev pub import_limit : AppError
import_limit = record {
  code = "context_limit";
  message = "This workspace is too large to import into Hermes. Existing history is unchanged.";
}

-- `str::chars().count()`.
abbrev pub char_count : String → ℕ
char_count String.[] = 0
char_count (String.◌∷◌ c s) = char_count s + 1

-- `Session::managed`.
abbrev pub managed : Option Bool → ℕ → AppResult Session
managed (some true) generation = ok (record { endpoint = local_binding; generation = generation })
managed _ generation = err not_ready

abbrev pub checked : Bool → Db (Unit {0})
checked require_ready =
    if require_ready
    then (do status ← query runtime_status; _ ← lift (require_binding status true); lift (ok tt))
    else lift (ok tt)

unfoldable pub session : Option Bool → Bool → Db Session
session alive require_ready = do
  checked require_ready
  saved ← query runtime_config
  lift (managed alive saved.config.generation)

-- The column `role`.
abbrev pub role_name : Role → String
role_name user = "user"
role_name assistant = "assistant"

abbrev pub history : RuntimeWorkspace → List ChatMessage → List HistoryMessage
history route messages =
    if route.remote_initialized
    then []
    else map (λ m. record { role = role_name m.role; content = m.content })
        (retain (λ m. is_complete m.status) messages)

unfoldable pub budgets_of : Limits → Budgets
budgets_of limits = record {
  max_iterations = min limits.max_iterations 8;
  max_tool_calls = min limits.max_tool_calls 12;
  max_output_tokens = min limits.max_output_tokens 4096;
  max_duration_seconds = min limits.max_duration_seconds 180;
}

abbrev pub no_budget : Budgets → Bool
no_budget b = b.max_iterations == 0 || b.max_output_tokens == 0 || b.max_duration_seconds == 0

abbrev pub new_request :
    String
    → String
    → String
    → Session
    → RuntimeWorkspace
    → Budgets
    → List HistoryMessage
    → StoredRequest
new_request id content request session route budgets import_history = record {
  input = record {
    workspace_id = id;
    message = content;
    model_id = route.model_id;
    grant_refs = [];
    interface_ids = [];
    budgets = budgets;
    import_history = import_history;
  };
  config_generation = session.generation;
  workspace_generation = route.generation;
  dispatched = false;
  cancel_requested = false;
  progress = record {
    workspace_id = id;
    request_id = request;
    generation = session.generation;
    run = none;
    events = [];
    cursor = 0;
    state = "queued";
  };
}

abbrev pub too_large : Json → List HistoryMessage → Bool
too_large json messages =
    ltb 100 (length messages)
    || any (λ m. ltb 16000 (char_count m.content)) messages
    || ltb 131072 (json.history_size messages)

module _ (host : Host) (json : Json) where
  unfoldable pub start :
      Option Bool → String → String → String → String → String → String → Db ChatWorkspace
  start alive id content request user_id reply_id now = do
    query λ t. reject_if (leb 8 (count (λ m. is_pending m.status) t.messages)) runs_busy
    opened ← session alive true
    route ← runtime_workspace host id
    status ← query runtime_status
    lift (
        reject_if
          (route.model_id == ""
            || not (any (λ m. m.available && m.id == route.model_id) status.models))
          model_unavailable)
    lift (Validation.text content 16000 false)
    current ← query (workspace host id)
    lift (reject_if (too_large json (history route current.messages)) import_limit)
    caps ← lift (ok_or status.capabilities not_ready)
    lift (reject_if (no_budget (budgets_of caps.limits)) protocol)
    start_captured host id content request opened.generation
        (some (
          new_request id content request opened route (budgets_of caps.limits)
            (history route current.messages)))
        user_id reply_id now
    query (workspace host id)
