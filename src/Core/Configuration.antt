-- ===== src/Core/Configuration.antt =====
-- `Core::configure` of src-tauri/src/core.rs: a new provider, its key and what follows from it.
use desktop_ai_dashboard.Prelude.{
  ℕ, ◌+◌, String, Bool, true, false, not, ◌&&◌, ◌||◌, Option, none, some, ◌==◌, nat_eq, string_eq,
  ltb, is_some, if◌then◌else◌, AppError, AppResult, ok, err, reject_if, storage, invalid,
}
use desktop_ai_dashboard.Prelude.Results
use desktop_ai_dashboard.Prelude.Acts.{Act, ◌>>=◌, ◌>>◌, pure, lift, modify, state}
use desktop_ai_dashboard.Prelude.Texts.{trim}
use desktop_ai_dashboard.Prelude.Scans.{chars, has_infix}
use desktop_ai_dashboard.Host.{Host}
use desktop_ai_dashboard.Validation
use desktop_ai_dashboard.Validation.{max_version}
use desktop_ai_dashboard.Validation.Endpoints.{endpoint}
use desktop_ai_dashboard.Provider.{credential_reference}
use desktop_ai_dashboard.Store.Tables.{ProviderConfig, StoredProvider}
use desktop_ai_dashboard.Store.Chats.{invalidate_provider}
use desktop_ai_dashboard.Core.{Core, Credentials, cancel_slot, on_tables, query}
use desktop_ai_dashboard.Core.Managed.{provider_changed}

pub record ProviderInput : Type 0 where
  pub label : String
  pub base_url : String
  pub model : String
  pub api_key : Option String
  pub clear_key : Bool

abbrev pub not_confirmed : AppError
not_confirmed = record {
  code = "credential_store";
  message = "The OS credential store could not confirm the new key. Configuration was not changed.";
}

abbrev same_credential : Option String → Option String → Bool
same_credential none none = true
same_credential (some a) (some b) = a == b
same_credential _ _ = false

-- The checks on the key: `api_key`, and that no other field holds it.
abbrev check_secret : Option String → String → String → String → AppResult (Unit {0})
check_secret none label base model = ok tt
check_secret (some secret) label base model = elim (Validation.api_key secret) [
  | err e ↦ err e
  | ok done ↦
      reject_if
        (has_infix (chars secret) (chars label)
          || has_infix (chars secret) (chars base)
          || has_infix (chars secret) (chars model))
        invalid
]

abbrev inconsistent : ProviderInput → String → Bool
inconsistent input base =
    input.clear_key && is_some input.api_key
    || base == "" && (not (input.model == "") || is_some input.api_key)

abbrev pub next_generation : ℕ → AppResult ℕ
next_generation g = if ltb max_version (g + 1) then err storage else ok (g + 1)

-- The credential that is kept, and the one of a new key.
abbrev credential_of : ProviderInput → String → StoredProvider → Option String → Option String
credential_of input base old none =
    if base == old.config.base_url && not input.clear_key then old.credential else none
credential_of input base old (some fresh) = some fresh

abbrev pub updated : ProviderInput → String → StoredProvider → Option String → ℕ → StoredProvider
updated input base old fresh generation = record {
  config = record {
    label = trim input.label;
    base_url = base;
    model = input.model;
    has_key = is_some (credential_of input base old fresh);
    verified = false;
    last_checked_at = none;
  };
  generation = generation;
  credential = credential_of input base old fresh;
}

abbrev pub cancel_work : {S : Type 0} → Core S → Core S
cancel_work core = record (cancel_slot core.discovery (cancel_slot core.check core)) {
  check = none;
  discovery = none;
}

-- The checks of the input, and the endpoint that it names.
unfoldable pub admit : Host → ProviderInput → AppResult String
admit crates input = Results.◌>>◌ (Validation.single_line input.label 80 true) (
    Results.◌>>◌ (Validation.model input.model true) (
      Results.◌>>=◌ (endpoint crates input.base_url) λ base.
        Results.◌>>◌ (reject_if (inconsistent input base) invalid)
          (Results.◌>>◌ (check_secret input.api_key input.label base input.model) (ok base))))

module _ {S : Type 0} (crates : Host) (digest : String → String) (credentials : Credentials S) where
  abbrev write_key : String → String → Act (Core S) (Unit {0})
  write_key reference secret core = (
    (credentials.write reference secret core.keys).0,
    record core { keys = (credentials.write reference secret core.keys).1 },
  )

  abbrev remove_key : String → Act (Core S) (Unit {0})
  remove_key reference core = (
    (credentials.remove reference core.keys).0,
    record core { keys = (credentials.remove reference core.keys).1 },
  )

  -- `let _ = self.credentials.remove(reference)`.
  abbrev drop_key : Option String → Act (Core S) (Unit {0})
  drop_key none core = (ok tt, core)
  drop_key (some reference) core = (ok tt, (remove_key reference core).1)

  abbrev is_stored : AppResult String → String → Bool
  is_stored (ok stored) secret = stored == secret
  is_stored (err e) secret = false

  -- A new key is written and read back; one that is not confirmed is removed.
  unfoldable pub save_key : String → Option String → Act (Core S) (Option String)
  save_key reference none = pure none
  save_key reference (some secret) = do
    write_key reference secret
    core ← state
    elim (is_stored (credentials.read reference core.keys) secret) [
      | true ↦ pure (some reference)
      | false ↦ do drop_key (some reference); lift (err not_confirmed)
    ]

  -- `invalidate_provider`, with the new key removed if it fails.
  unfoldable pub store_provider : StoredProvider → Option String → Act (Core S) (Unit {0})
  store_provider provider fresh core =
      let stored = on_tables (invalidate_provider provider) core in
      let undone = drop_key fresh stored.1 in
      elim stored.0 [ ok done ↦ stored | err e ↦ (err e, undone.1) ]

  unfoldable pub remove_old : Option String → Option String → Act (Core S) (Unit {0})
  remove_old none fresh = pure tt
  remove_old (some reference) fresh =
      if same_credential (some reference) fresh then pure tt else remove_key reference

  -- What follows a provider that is stored: the runtime, the work in progress and the old key.
  unfoldable pub follow_up : Option String → Option String → String → Act (Core S) (Unit {0})
  follow_up old credential epoch = do
    provider_changed epoch
    modify cancel_work
    remove_old old credential

  -- `configure` from the new generation on.
  unfoldable pub commit :
      ProviderInput → String → StoredProvider → Option String → String → Act (Core S) ProviderConfig
  commit input base old saved epoch = do
    generation ← lift (next_generation old.generation)
    store_provider (updated input base old saved generation) saved
    follow_up old.credential (updated input base old saved generation).credential epoch
    pure (updated input base old saved generation).config

  -- `fresh` and `epoch` are the identifiers that `Uuid::new_v4` yields.
  unfoldable pub configure : ProviderInput → String → String → Act (Core S) ProviderConfig
  configure input fresh epoch = do
    base ← lift (admit crates input)
    old ← query (λ t. t.provider)
    saved ← save_key (credential_reference digest base fresh) input.api_key
    commit input base old saved epoch
