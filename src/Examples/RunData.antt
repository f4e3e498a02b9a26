-- ===== src/Examples/RunData.antt =====
-- Test data for the models of src-tauri/src/runtime/runs.rs and storage.rs.
use desktop_ai_dashboard.Prelude.{true, false, none, some, [], ◌∷◌, nat_eq, string_eq}
use desktop_ai_dashboard.Runtime.Dto.{
  Json, Limits, Capabilities, running, succeeded, Run, Event, delta, RunPoll, StoredRequest, hermes,
}
use desktop_ai_dashboard.Runtime.Polls.{hermes_revision}
use desktop_ai_dashboard.Runtime.Admission.{budgets_of}
use desktop_ai_dashboard.Store.Tables
use desktop_ai_dashboard.Store.Tables.{assistant, MessageRow, count, update, Tables}
use desktop_ai_dashboard.Examples.Chats.{opened}

abbrev pub sizes : Json
sizes = record { event_size = λ e. 10; progress_size = λ p. 100; history_size = λ h. 2 }

abbrev pub limits : Limits
limits = record {
  max_iterations = 20;
  max_tool_calls = 0;
  max_output_tokens = 1000;
  max_duration_seconds = 60;
  max_tool_result_bytes = 1000;
  daily_model_requests = none;
  max_queued_runs = none;
}

abbrev pub caps : Capabilities
caps = record {
  contract_version = "forma-runtime-v1";
  device_id = "device";
  library_id = "library";
  model_origin = "https://model.example";
  runtime = record { kind = "hermes"; ready = true; revision = hermes_revision; reason = none };
  features = record {
    event_polling = true;
    interfaces = true;
    schedules = true;
    native_tool_bridge = false;
    generated_code_execution = false;
    live_google = false;
  };
  tools = [];
  limits = limits;
}

abbrev pub stored : StoredRequest
stored = record {
  input = record {
    workspace_id = "workspace";
    message = "Hello";
    model_id = "model";
    grant_refs = [];
    interface_ids = [];
    budgets = budgets_of limits;
    import_history = [];
  };
  config_generation = 3;
  workspace_generation = 0;
  dispatched = true;
  cancel_requested = false;
  progress = record {
    workspace_id = "workspace";
    request_id = "request";
    generation = 3;
    run = none;
    events = [];
    cursor = 0;
    state = "queued";
  };
}

abbrev pub reply : MessageRow
reply = record {
  id = "m2";
  workspace_id = "workspace";
  role = assistant;
  content = "";
  status = Tables.pending;
  created_at = "2";
  request_id = "request";
  generation = 3;
}

-- A workspace whose reply Hermes is working on.
abbrev pub working : StoredRequest → Tables
working request = record opened {
  request_ids = "request" ∷ [];
  messages = reply ∷ [];
  capabilities = some caps;
  runtime_workspaces =
      record {
        workspace_id = "workspace";
        value = record {
          workspace_id = "workspace";
          route = hermes;
          model_id = "model";
          generation = 0;
          remote_initialized = false;
        };
        endpoint_generation = "https://managed.forma.invalid";
      }
      ∷ [];
  runtime_requests =
      record { request_id = "request"; workspace_id = "workspace"; value = request } ∷ [];
  runtime_owners =
      record {
        workspace_id = "workspace";
        endpoint = "https://managed.forma.invalid";
        library_id = "library";
        device_id = "device";
      }
      ∷ [];
}

abbrev pub event : Event
event = record { run_id = "request"; seq = 1; at = "3"; kind = delta "Hi" }

abbrev pub run : Run
run = record {
  id = "request";
  workspace_id = "workspace";
  origin = "operator";
  schedule_id = none;
  state = succeeded;
  reason = none;
  model_id = "model";
  hermes_revision = hermes_revision;
  budgets = budgets_of limits;
  created_at = "2";
  started_at = none;
  finished_at = none;
  last_seq = 1;
  final_message = some "Hi";
}

-- The last page of a run that has succeeded, and a first page of the running one.
abbrev pub poll : RunPoll
poll = record {
  run = run;
  events = event ∷ [];
  next_after = 1;
  has_more = false;
  tool_requests = [];
}

abbrev pub early_poll : RunPoll
early_poll = record poll { run = record run { state = running; final_message = none } }

abbrev pub merged : StoredRequest
merged = record stored {
  progress = record stored.progress {
    run = some run;
    events = event ∷ [];
    cursor = 1;
    state = "succeeded";
  };
}
