-- ===== src/Runtime/Dto.antt =====
-- The data that the desktop exchanges with the Hermes runtime: src-tauri/src/runtime/dto.rs,
-- `StoredRuntime` of config.rs and `StoredRequest` of storage.rs.
use desktop_ai_dashboard.Prelude.{
  ℕ, String, Bool, true, false, Option, List, ◌≡◌, ◌↔◌, string_eq, nat_eq, arith,
}

pub record Limits : Type 0 where
  pub max_iterations : ℕ
  pub max_tool_calls : ℕ
  pub max_output_tokens : ℕ
  pub max_duration_seconds : ℕ
  pub max_tool_result_bytes : ℕ
  pub daily_model_requests : Option ℕ
  pub max_queued_runs : Option ℕ

pub record Budgets : Type 0 where
  pub max_iterations : ℕ
  pub max_tool_calls : ℕ
  pub max_output_tokens : ℕ
  pub max_duration_seconds : ℕ

pub record RuntimeIdentity : Type 0 where
  pub kind : String
  pub ready : Bool
  pub revision : String
  pub reason : Option String

pub record Features : Type 0 where
  pub event_polling : Bool
  pub interfaces : Bool
  pub schedules : Bool
  pub native_tool_bridge : Bool
  pub generated_code_execution : Bool
  pub live_google : Bool

pub record ToolCapability : Type 0 where
  pub name : String
  pub available : Bool
  pub execution : String
  pub reason : Option String

pub record Capabilities : Type 0 where
  pub contract_version : String
  pub device_id : String
  pub library_id : String
  pub model_origin : String
  pub runtime : RuntimeIdentity
  pub features : Features
  pub tools : List ToolCapability
  pub limits : Limits

pub record RuntimeModel : Type 0 where
  pub id : String
  pub name : String
  pub available : Bool
  pub reason : Option String

pub record RuntimeConfig : Type 0 where
  pub endpoint : String
  pub enabled : Bool
  pub verified : Bool
  pub generation : ℕ

pub record StoredRuntime : Type 0 where
  pub config : RuntimeConfig
  pub state : String
  pub message : Option String
  pub config_epoch : String
  pub model_generation : Option ℕ
  pub background_approved : Bool
  pub approved_models : List String
  pub bound_library_id : Option String
  pub bound_device_id : Option String

pub record RuntimeStatus : Type 0 where
  pub config : RuntimeConfig
  pub state : String
  pub message : Option String
  pub generation : ℕ
  pub verified : Bool
  pub capabilities : Option Capabilities
  pub models : List RuntimeModel

pub data Route : Type 0 where
  hermes : Route

pub record RuntimeWorkspace : Type 0 where
  pub workspace_id : String
  pub route : Route
  pub model_id : String
  pub generation : ℕ
  pub remote_initialized : Bool

pub record GrantRef : Type 0 where
  pub id : String
  pub generation : ℕ

pub data RunState : Type 0 where
  queued running waiting_for_device cancelling succeeded failed cancelled interrupted blocked :
      RunState

-- `RunState::terminal`.
unfoldable pub is_final : RunState → Bool
is_final succeeded = true
is_final failed = true
is_final cancelled = true
is_final interrupted = true
is_final blocked = true
is_final _ = false

abbrev pub same_state : RunState → RunState → Bool
same_state queued queued = true
same_state running running = true
same_state waiting_for_device waiting_for_device = true
same_state cancelling cancelling = true
same_state succeeded succeeded = true
same_state failed failed = true
same_state cancelled cancelled = true
same_state interrupted interrupted = true
same_state blocked blocked = true
same_state _ _ = false

pub same_state_iff : (a b : RunState) → (same_state a b ≡ true) ↔ (a ≡ b)
same_state_iff a b = ground arith

-- `state_name`: the name that serde writes.
unfoldable pub state_name : RunState → String
state_name queued = "queued"
state_name running = "running"
state_name waiting_for_device = "waiting_for_device"
state_name cancelling = "cancelling"
state_name succeeded = "succeeded"
state_name failed = "failed"
state_name cancelled = "cancelled"
state_name interrupted = "interrupted"
state_name blocked = "blocked"

pub record Run : Type 0 where
  pub id : String
  pub workspace_id : String
  pub origin : String
  pub schedule_id : Option String
  pub state : RunState
  pub reason : Option String
  pub model_id : String
  pub hermes_revision : String
  pub budgets : Budgets
  pub created_at : String
  pub started_at : Option String
  pub finished_at : Option String
  pub last_seq : ℕ
  pub final_message : Option String

pub data EventKind : Type 0 where
  run_state : RunState → Option String → EventKind
  delta : String → EventKind
  message : String → EventKind
  tool_requested : String → String → Option String → EventKind
  tool_result : String → String → EventKind
  interface_proposed : String → Option String → ℕ → EventKind
  interface_updated : String → ℕ → EventKind
  schedule_created : String → String → EventKind
  error_event : String → String → Bool → EventKind

pub record Event : Type 0 where
  pub run_id : String
  pub seq : ℕ
  pub at : String
  pub kind : EventKind

-- `args` is the JSON text of the call.
pub record ToolRequest : Type 0 where
  pub id : String
  pub run_id : String
  pub workspace_id : String
  pub device_id : String
  pub connection_id : String
  pub grant_ref : GrantRef
  pub tool_name : String
  pub args : String
  pub expires_at : String
  pub state : String

pub record RunPoll : Type 0 where
  pub run : Run
  pub events : List Event
  pub next_after : ℕ
  pub has_more : Bool
  pub tool_requests : List ToolRequest

pub record CancelReceipt : Type 0 where
  pub id : String
  pub state : RunState
  pub admitted : Bool
  pub run : Option Run

pub record HistoryMessage : Type 0 where
  pub role : String
  pub content : String

pub record RunInput : Type 0 where
  pub workspace_id : String
  pub message : String
  pub model_id : String
  pub grant_refs : List GrantRef
  pub interface_ids : List String
  pub budgets : Budgets
  pub import_history : List HistoryMessage

pub record RuntimeProgress : Type 0 where
  pub workspace_id : String
  pub request_id : String
  pub generation : ℕ
  pub run : Option Run
  pub events : List Event
  pub cursor : ℕ
  pub state : String

pub record StoredRequest : Type 0 where
  pub input : RunInput
  pub config_generation : ℕ
  pub workspace_generation : ℕ
  pub dispatched : Bool
  pub cancel_requested : Bool
  pub progress : RuntimeProgress

-- The lengths of the JSON texts that `serde_json::to_vec` writes.
pub record Json : Type 0 where
  pub event_size : Event → ℕ
  pub progress_size : RuntimeProgress → ℕ
  pub history_size : List HistoryMessage → ℕ
