-- ===== src/Core.antt =====
-- The native core of src-tauri/src/core.rs: its state behind the lock, with the credential store and
-- the cancellation tokens, and the parts of src-tauri/src/runtime/managed.rs that change it.
pub mod Managed
pub mod Configuration
pub mod Configured
pub mod Resets
pub mod Checks
pub mod Answers
pub mod Bindings
pub mod Stops
pub mod Stopped
use desktop_ai_dashboard.Prelude.{
  ℕ, suc, ◌+◌, String, Bool, true, false, not, Option, none, some, List, [], ◌∷◌, ◌++◌, map, ◌==◌,
  nat_eq, contains, if◌then◌else◌, AppError, AppResult, ok, err,
}
use desktop_ai_dashboard.Prelude.Acts.{Act, ◌>>=◌, ◌>>◌, pure, lift, modify}
use desktop_ai_dashboard.Store.Tables.{Tables, Db, StoredProvider}
use desktop_ai_dashboard.Host.{Host}
use desktop_ai_dashboard.Provider.{credential_matches}

-- `trait Credentials`: the store of saved keys, which `S` is the state of.
pub record Credentials (S : Type 0) : Type 0 where
  pub read : String → S → AppResult String
  pub write : String → String → S → AppResult (Unit {0}) × S
  pub remove : String → S → AppResult (Unit {0}) × S

-- A cancellation token is its number among those that the core has made; `cancelled` holds the
-- tokens on which `cancel` was called.
pub record Core (S : Type 0) : Type 0 where
  pub tables : Tables
  pub keys : S
  pub runtime_requests : List (String × ℕ)
  pub synced_model_generation : Option ℕ
  pub check : Option ℕ
  pub discovery : Option ℕ
  pub tokens : ℕ
  pub cancelled : List ℕ

abbrev pub wrong_endpoint : AppError
wrong_endpoint = record {
  code = "credential_store";
  message = "The saved key does not belong to this endpoint. Reconnect your AI provider.";
}

module _ {S : Type 0} where
  abbrev pub is_cancelled : ℕ → Core S → Bool
  is_cancelled token core = contains core.cancelled token

  -- `if let Some(token) = slot { token.cancel() }`.
  abbrev pub cancel_slot : Option ℕ → Core S → Core S
  cancel_slot none core = core
  cancel_slot (some token) core = record core { cancelled = token ∷ core.cancelled }

  abbrev pub cancel_all : List (String × ℕ) → Core S → Core S
  cancel_all requests core = record core {
    cancelled = map (λ (r : String × ℕ). r.1) requests ++ core.cancelled;
  }

  -- A statement on the database of the core.
  abbrev pub on_tables {ℓ} : {A : Type ℓ} → Db A → Act (Core S) A
  on_tables m core = ((m core.tables).1, record core { tables = (m core.tables).0 })

  abbrev pub query {ℓ} : {A : Type ℓ} → (Tables → A) → Act (Core S) A
  query f core = (ok (f core.tables), core)

  module _ (crates : Host) (digest : String → String) (credentials : Credentials S) where
    unfoldable pub key : StoredProvider → Core S → AppResult (Option String)
    key provider core = elim provider.credential [
      | none ↦ ok none
      | some reference ↦
          if not (credential_matches crates digest provider.config.base_url reference)
          then err wrong_endpoint
          else elim (credentials.read reference core.keys) [ ok k ↦ ok (some k) | err e ↦ err e ]
    ]
