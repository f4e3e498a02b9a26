-- ===== src/Core/Checks.antt =====
-- Refreshing the list of models and checking a connection: `begin_discovery`, `finish_discovery`,
-- `cancel` and `delete` of src-tauri/src/core.rs, and the parts of `check_model` before and after
-- the request. The request itself is not modelled; its result is an argument.
use desktop_ai_dashboard.Prelude.{
  ℕ, ◌+◌, String, Bool, true, false, not, ◌||◌, Option, none, some, List, ◌==◌, nat_eq, string_eq,
  any, is_some, is_some_and, AppError, AppResult, ok, err, reject_if, stale, missing,
}
use desktop_ai_dashboard.Prelude.Acts.{Act, ◌>>=◌, ◌>>◌, pure, lift, modify, ask}
use desktop_ai_dashboard.Host.{Host}
use desktop_ai_dashboard.Validation
use desktop_ai_dashboard.Provider.{selected_model}
use desktop_ai_dashboard.Store.Tables.{Tables, StoredProvider, execute}
use desktop_ai_dashboard.Store.Queries.{ChatWorkspace, workspace}
use desktop_ai_dashboard.Store.Chats.{set_provider, cancel_pending, delete}
use desktop_ai_dashboard.Runtime.Runs.{bears}
use desktop_ai_dashboard.Core.{Core, Credentials, is_cancelled, key, on_tables, query}

pub record Discovery : Type 0 where
  pub base : String
  pub generation : ℕ
  pub key : Option String
  pub token : ℕ

abbrev refresh_busy : AppError
refresh_busy = record { code = "busy"; message = "A model refresh is already running." }

abbrev check_busy : AppError
check_busy = record { code = "busy"; message = "A model connection check is already running." }

abbrev not_set_up : String → AppError
not_set_up message = record { code = "provider_not_ready"; message = message }

abbrev unchecked : StoredProvider → StoredProvider
unchecked p = record p { config = record (p.config) { verified = false; last_checked_at = none } }

abbrev checked : StoredProvider → String → StoredProvider
checked p now = record p {
  config = record (p.config) { verified = true; last_checked_at = some now };
}

-- `set_state` writes the state and the message of the runtime's configuration.
abbrev set_state : String → String → Tables → Tables
set_state name message t = record t {
  runtime_config = record (t.runtime_config) { state = name; message = some message };
}

abbrev pub with_model : Option (String × ℕ) → String → StoredProvider → StoredProvider
with_model none chosen p = record p { config = record (p.config) { model = chosen } }
with_model (some selection) chosen p = p

abbrev pub wanted : Option (String × ℕ) → StoredProvider → String
wanted none p = p.config.model
wanted (some (model, generation)) p = model

module _ {S : Type 0} where
  abbrev take_token : Act (Core S) ℕ
  take_token core = (ok core.tokens, record core { tokens = core.tokens + 1 })

  unfoldable pub model_check_failed : Act (Core S) (Unit {0})
  model_check_failed = on_tables (
      execute (
        set_state "error"
          "The model check failed. Your local Hermes library and schedule Pause remain available."))

  -- Whether the answer to a request of this token and generation comes too late.
  abbrev pub is_late : ℕ → ℕ → Core S → Bool
  is_late token generation core =
      is_cancelled token core || not (core.tables.provider.generation == generation)

  unfoldable pub finish_discovery : Discovery → AppResult (List String) → Act (Core S) (List String)
  finish_discovery discovery result = do
    ask (λ core. reject_if (is_late discovery.token discovery.generation core) stale)
    modify (λ core. record core { discovery = none })
    lift result

  -- The end of `check_model` for a list of models that was read.
  unfoldable pub accept_models :
      Option (String × ℕ) → StoredProvider → List String → String → Act (Core S) (List String)
  accept_models selection snapshot models now =
      elim (selected_model (wanted selection snapshot) models) [
        | err e ↦ do model_check_failed; lift (err e)
        | ok chosen ↦ do
          on_tables (set_provider (checked (with_model selection chosen snapshot) now))
          pure models
      ]

  -- The part of `check_model` after the request, up to the synchronisation.
  unfoldable pub finish_check :
      Option (String × ℕ)
      → StoredProvider
      → ℕ
      → AppResult (List String)
      → String
      → Act (Core S) (List String)
  finish_check selection snapshot token result now = do
    ask (λ core. reject_if (is_late token snapshot.generation core) stale)
    modify (λ core. record core { check = none })
    elim result [
      | err e ↦ do model_check_failed; lift (err e)
      | ok models ↦ accept_models selection snapshot models now
    ]

  module _ (crates : Host) (digest : String → String) (credentials : Credentials S) where
    unfoldable pub begin_discovery : Act (Core S) Discovery
    begin_discovery = do
      ask (λ core. reject_if (is_some core.discovery) refresh_busy)
      provider ← query (λ t. t.provider)
      lift (
          reject_if (provider.config.base_url == "")
            (not_set_up "Set up an AI connection before refreshing models."))
      secret ← ask (key crates digest credentials provider)
      token ← take_token
      modify (λ core. record core { discovery = some token })
      pure (record {
        base = provider.config.base_url;
        generation = provider.generation;
        key = secret;
        token = token;
      })

    -- The part of `check_model` before the request.
    unfoldable pub begin_check :
        Option (String × ℕ) → Act (Core S) (StoredProvider × (Option String × ℕ))
    begin_check selection = do
      ask (λ core. reject_if (is_some core.check) check_busy)
      provider ← query (λ t. t.provider)
      lift (
          reject_if (is_some_and selection (λ (s : String × ℕ). not (s.1 == provider.generation)))
            stale)
      lift (
          reject_if (provider.config.base_url == "")
            (not_set_up "Enter your model provider endpoint before checking."))
      secret ← ask (key crates digest credentials provider)
      on_tables (set_provider (unchecked provider))
      on_tables (execute (set_state "needsModel" "Checking the approved model connection."))
      token ← take_token
      modify (λ core. record core { check = some token })
      pure (unchecked provider, (secret, token))

  module _ (crates : Host) where
    unfoldable pub cancel : String → String → Act (Core S) ChatWorkspace
    cancel id request = do
      lift (Validation.id crates id)
      lift (Validation.id crates request)
      current ← ask (λ core. workspace crates id core.tables)
      lift (reject_if (not (any (bears request) current.messages)) missing)
      on_tables (cancel_pending id request)
      ask (λ core. workspace crates id core.tables)

    unfoldable pub delete_workspace : String → Act (Core S) (Unit {0})
    delete_workspace id = on_tables (delete crates id)
