-- ===== src/Core/Managed.antt =====
-- What src-tauri/src/runtime/managed.rs does to the core while it holds the lock: `phase`,
-- `provider_changed` and `accept_snapshot`, and `validate_capabilities` of runtime.rs.
use desktop_ai_dashboard.Prelude.{
  ℕ, ◌+◌, String, Bool, true, false, not, ◌&&◌, ◌||◌, Option, none, some, List, [], ◌∷◌, ◌==◌,
  nat_eq, string_eq, ltb, length, is_some_and, if◌then◌else◌, AppError, AppResult, ok, err,
  reject_if, storage, stale,
}
use desktop_ai_dashboard.Prelude.Results
use desktop_ai_dashboard.Prelude.Acts.{Act, ◌>>=◌, ◌>>◌, lift, modify, ask}
use desktop_ai_dashboard.Host.{Host}
use desktop_ai_dashboard.Validation
use desktop_ai_dashboard.Validation.Endpoints.{endpoint}
use desktop_ai_dashboard.Runtime.Dto.{Capabilities, RuntimeModel, StoredRuntime, RuntimeStatus}
use desktop_ai_dashboard.Runtime.Storage.{
  protocol, runtime_status, runtime_save_config, runtime_checked,
}
use desktop_ai_dashboard.Store.Tables.{Tables, RouteRow, update, execute}
use desktop_ai_dashboard.Core.{Core, cancel_all, on_tables, query}

abbrev pub max_u64 : ℕ
max_u64 = 18446744073709551615

abbrev pub binding_changed : String → AppError
binding_changed message = record { code = "runtime_binding_changed"; message = message }

-- The configuration that `provider_changed` saves; `epoch` is a fresh identifier.
abbrev pub fresh_config : String → StoredRuntime → StoredRuntime
fresh_config epoch saved = record saved {
  config_epoch = epoch;
  model_generation = none;
  background_approved = false;
  approved_models = [];
  state = "needsModel";
  message = none;
  config = record (saved.config) { generation = saved.config.generation + 1 };
}

abbrev pub revision : String
revision = "349e6611a1c5d846a865368dd6c386b78edd1a54"

-- The state that an accepted snapshot is given.
abbrev pub state_of : Capabilities → String
state_of caps =
    if caps.runtime.ready && not (caps.model_origin == "")
    then "ready"
    else if caps.model_origin == ""
    then "needsModel"
    else "error"

abbrev pub bound : Option String → String → Bool
bound saved id = is_some_and saved (λ s. not (s == id))

abbrev pub other_binding : Option Capabilities → Capabilities → Bool
other_binding none caps = false
other_binding (some old) caps =
    not (old.device_id == caps.device_id) || not (old.library_id == caps.library_id)

abbrev keep_generation : Option ℕ → Option ℕ → Option ℕ
keep_generation none old = old
keep_generation (some g) old = some g

abbrev pub bound_config : Capabilities → Option ℕ → StoredRuntime → StoredRuntime
bound_config caps generation saved = record saved {
  bound_library_id = some caps.library_id;
  bound_device_id = some caps.device_id;
  config = record (saved.config) { verified = true };
  state = state_of caps;
  message = caps.runtime.reason;
  model_generation = keep_generation generation saved.model_generation;
}

-- The workspaces without a model get the provider's.
abbrev pub default_models : Option ℕ → Tables → Tables
default_models none t = t
default_models (some g) t = record t {
  runtime_workspaces =
      update (λ (r : RouteRow). r.value.model_id == "")
        (λ r. record r { value = record (r.value) { model_id = t.provider.config.model } })
        t.runtime_workspaces;
}

module _ (crates : Host) where
  -- `if !caps.model_origin.is_empty() { validation::endpoint(..)?; }`.
  abbrev check_origin : String → AppResult (Unit {0})
  check_origin o =
      if o == "" then ok tt else elim (endpoint crates o) [ ok e ↦ ok tt | err e ↦ err e ]

  unfoldable pub check_models : List RuntimeModel → AppResult (Unit {0})
  check_models [] = ok tt
  check_models (m ∷ ms) =
      let rest = check_models ms in
      Results.◌>>◌ (Validation.model m.id false)
        (Results.◌>>◌ (Validation.single_line m.name 200 false) rest)

  abbrev unsupported : Capabilities → List RuntimeModel → Bool
  unsupported caps models =
      not (caps.contract_version == "forma-runtime-v1")
      || not (caps.runtime.kind == "hermes")
      || not caps.features.event_polling
      || caps.features.generated_code_execution
      || caps.features.live_google
      || ltb 200 (length models)
      || ltb 40 (length caps.tools)
      || not (caps.runtime.revision == revision)

  unfoldable pub validate_capabilities : Capabilities → List RuntimeModel → AppResult (Unit {0})
  validate_capabilities caps models =
      Results.◌>>◌
        (Results.◌>>◌
          (Results.◌>>◌
            (Results.◌>>◌ (reject_if (unsupported caps models) protocol)
              (Validation.id crates caps.device_id))
            (Validation.id crates caps.library_id))
          (check_origin caps.model_origin))
        (check_models models)

  abbrev pub expected_origin : String → AppResult String
  expected_origin base_url = elim (crates.parse_url base_url) [
    | some url ↦ ok url.origin
    | none ↦ err protocol
  ]

  -- `if generation.is_some() { … }`: the runtime acknowledges the origin of the endpoint.
  abbrev pub check_destination : Option ℕ → String → String → AppResult (Unit {0})
  check_destination none base_url acknowledged = ok tt
  check_destination (some g) base_url acknowledged =
      Results.◌>>=◌ (expected_origin base_url) λ expected.
        reject_if (not (acknowledged == expected))
          (binding_changed "Hermes did not acknowledge the approved model destination.")

  -- The checks of `accept_snapshot`, which change nothing.
  unfoldable pub admit_snapshot :
      Capabilities → List RuntimeModel → Option ℕ → Tables → AppResult (Unit {0})
  admit_snapshot caps models generation t =
      Results.◌>>◌
        (Results.◌>>◌
          (Results.◌>>◌
            (Results.◌>>◌ (validate_capabilities caps models)
              (reject_if (is_some_and generation (λ g. not (t.provider.generation == g))) stale))
            (check_destination generation t.provider.config.base_url caps.model_origin))
          (reject_if
            (bound t.runtime_config.bound_library_id caps.library_id
              || bound t.runtime_config.bound_device_id caps.device_id)
            (binding_changed
              "Managed Hermes profile identity changed. Existing work was preserved.")))
        (reject_if (other_binding t.capabilities caps) (
          binding_changed
            "Managed Hermes profile identity changed. Existing work was preserved and execution blocked."))

  module _ {S : Type 0} where
    unfoldable pub accept_snapshot :
        Capabilities → List RuntimeModel → Option ℕ → Act (Core S) RuntimeStatus
    accept_snapshot caps models generation = do
      ask (λ core. admit_snapshot caps models generation core.tables)
      saved ← query (λ t. bound_config caps generation t.runtime_config)
      modify (λ core. record core {
        synced_model_generation = keep_generation generation core.synced_model_generation;
      })
      on_tables (execute (default_models generation))
      on_tables (runtime_checked saved caps models)
      ask (λ core. runtime_status core.tables)

abbrev keeps_verified : String → Bool
keeps_verified name = name == "ready" || name == "needsModel"

module _ {S : Type 0} where
  unfoldable pub phase : String → Option String → Act (Core S) (Unit {0})
  phase name message = on_tables (
      execute λ t. record t {
        runtime_config = record (t.runtime_config) {
          state = name;
          message = message;
          config = record (t.runtime_config.config) {
            verified = keeps_verified name && t.runtime_config.config.verified;
          };
        };
      })

  unfoldable pub provider_changed : String → Act (Core S) (Unit {0})
  provider_changed epoch = do
    saved ← query (λ t. t.runtime_config)
    lift (reject_if (saved.config.generation == max_u64) storage)
    modify (λ core. record (cancel_all core.runtime_requests core) {
      synced_model_generation = none;
      runtime_requests = [];
    })
    on_tables (runtime_save_config (fresh_config epoch saved))
