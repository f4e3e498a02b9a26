-- ===== src/Examples/Chats.antt =====
-- Runs of the chats (src-tauri/src/store.rs).
use desktop_ai_dashboard.Prelude.{
  String, true, false, none, [], ◌∷◌, ◌≡◌, ◌≢◌, refl, ok, err, nat_eq, string_eq, arith, eq_iff,
  AppError, stale,
}
use desktop_ai_dashboard.Prelude.Texts.{trim, trim_start, trim_end}
use desktop_ai_dashboard.Validation
use desktop_ai_dashboard.Runtime.Dto.{StoredRuntime}
use desktop_ai_dashboard.Store.Tables.{StoredProvider, complete, error, Tables}
use desktop_ai_dashboard.Store.Queries.{workspace, ChatWorkspace}
use desktop_ai_dashboard.Store.Chats.{admit, update_draft, delete, start_captured, finish}
use desktop_ai_dashboard.Store.Outcomes.{finished}
use desktop_ai_dashboard.Store.Invariant.{IsSound}
use desktop_ai_dashboard.Store.Operations.{
  creating, deleting, reopening, apply, apply_all, start, next, reachable_tables-IsSound,
}
use desktop_ai_dashboard.Store.Requests.{start-finish_once}
use desktop_ai_dashboard.Store.Reuse.{start-never_again}
use desktop_ai_dashboard.Examples.Data.{host}

abbrev pub provider : StoredProvider
provider = record {
  config = record {
    label = "Model";
    base_url = "https://model.example";
    model = "model";
    has_key = true;
    verified = true;
    last_checked_at = none;
  };
  generation = 3;
  credential = none;
}

abbrev pub runtime : StoredRuntime
runtime = record {
  config = record {
    endpoint = "https://managed.forma.invalid";
    enabled = true;
    verified = true;
    generation = 3;
  };
  state = "ready";
  message = none;
  config_epoch = "epoch";
  model_generation = none;
  background_approved = false;
  approved_models = [];
  bound_library_id = none;
  bound_device_id = none;
}

-- The tables of a new installation.
abbrev pub empty : Tables
empty = record {
  preferences = record {
    onboarding_complete = true;
    onboarding_step = 2;
    display_name = "Ada";
    ambient_motion = true;
  };
  provider = provider;
  workspaces = [];
  request_ids = [];
  messages = [];
  runtime_config = runtime;
  capabilities = none;
  models = [];
  runtime_workspaces = [];
  runtime_requests = [];
  runtime_sessions = [];
  runtime_owners = [];
  legacy_requests = [];
  legacy_owners = [];
}

-- The same with one workspace.
abbrev pub opened : Tables
opened = record empty {
  workspaces =
      record {
        id = "workspace";
        title = "New workspace";
        created_at = "1";
        updated_at = "1";
        draft = "";
        draft_version = 0;
      }
      ∷ [];
}

reachable_tables-IsSound_example : IsSound (apply host (creating "workspace" "1") empty)
reachable_tables-IsSound_example =
    reachable_tables-IsSound host (apply host (creating "workspace" "1") empty)
      (next (start refl refl refl refl) (creating "workspace" "1") refl)

opened-IsSound : IsSound opened
opened-IsSound = record {
  one_row = λ id. ground arith;
  one_pending = λ id. omega arith;
  used = tt;
  used_runtime = tt;
  versions = (omega arith, tt);
  few_workspaces = omega arith;
}

sent : (start_captured host "workspace" "Hello" "request" 3 none "m1" "m2" "2" opened).1 ≡ ok tt
unfolding start_captured Validation.id Validation.text trim trim_start trim_end workspace admit
sent = refl

start-finish_once_example :
    let u = (start_captured host "workspace" "Hello" "request" 3 none "m1" "m2" "2" opened).0 in
    let v = finished "workspace" "request" 3 complete "Hi" "3" u in
    (finish "workspace" "request" 3 complete "Hi" "3" u ≡ (v, ok tt))
    × (finish "workspace" "request" 3 error "Late" "4" v ≡ (v, err stale))
start-finish_once_example =
    start-finish_once host "workspace" "Hello" "request" 3 none "m1" "m2" "2" complete error "Hi"
      "Late" "3" "4" opened opened-IsSound refl refl sent

start-never_again_example :
    let v =
      apply_all host
        (deleting "workspace" ∷ reopening ∷ [])
        (start_captured host "workspace" "Hello" "request" 3 none "m1" "m2" "2" opened).0 in
    (e : AppError) × (start_captured host "other" "Again" "request" 3 none "m3" "m4" "5" v
      ≡ (v, err e))
start-never_again_example =
    start-never_again host (deleting "workspace" ∷ reopening ∷ []) "request" "workspace" "Hello" 3
      none "m1" "m2" "2" "other" "Again" 3 none "m3" "m4" "5" opened sent

removed : (delete host "workspace" opened).1 ≡ ok tt
unfolding delete Validation.id
removed = refl

other_id : ◌≢◌ {A = String} "other" "workspace"
other_id = λ h. ground (arith, eq_iff "other" "workspace")

abbrev shown : ChatWorkspace
shown = record {
  summary = record {
    id = "workspace";
    title = "New workspace";
    created_at = "1";
    updated_at = "2";
    message_count = 0;
  };
  draft = "Draft";
  draft_version = 1;
  messages = [];
}

drafted_once : (update_draft host "workspace" "Draft" 1 "2" opened).1 ≡ ok shown
unfolding update_draft Validation.id Validation.text trim trim_start trim_end workspace
drafted_once = refl
