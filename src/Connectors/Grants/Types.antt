-- ===== src/Connectors/Grants/Types.antt =====
-- The data of src-tauri/src/connectors/grants.rs: operations, consents, grants and active reads.
use desktop_ai_dashboard.Prelude.{
  ℕ, ℤ, String, Bool, true, false, ◌||◌, ◌≡◌, ◌↔◌, List, ◌==◌, string_eq, any, AppError, arith,
  PartialEq,
}

pub data ReadOperation : Type 0 where
  gmail_list_metadata calendar_list_events : ReadOperation

abbrev pub same_operation : ReadOperation → ReadOperation → Bool
same_operation gmail_list_metadata gmail_list_metadata = true
same_operation calendar_list_events calendar_list_events = true
same_operation _ _ = false

pub same_operation_iff : (a b : ReadOperation) → (same_operation a b ≡ true) ↔ (a ≡ b)
same_operation_iff a b = ground arith

instance abbrev pub operation_eq : PartialEq ReadOperation
operation_eq = record { equal = same_operation; equal_iff = same_operation_iff }

unfoldable pub category : ReadOperation → String
category gmail_list_metadata = "gmail.metadata"
category calendar_list_events = "calendar.events"

-- `ALLOWED_SCOPES` of connectors.rs, by its three entries.
abbrev pub gmail_metadata_scope : String
gmail_metadata_scope = "https://www.googleapis.com/auth/gmail.metadata"

abbrev pub gmail_readonly_scope : String
gmail_readonly_scope = "https://www.googleapis.com/auth/gmail.readonly"

abbrev pub calendar_readonly_scope : String
calendar_readonly_scope = "https://www.googleapis.com/auth/calendar.readonly"

unfoldable pub scope_allowed : ReadOperation → List String → Bool
scope_allowed gmail_list_metadata scopes =
    any (λ s. s == gmail_metadata_scope || s == gmail_readonly_scope) scopes
scope_allowed calendar_list_events scopes = any (λ s. s == calendar_readonly_scope) scopes

pub record EgressConsent : Type 0 where
  pub runtime_origin : String
  pub model_origin : String
  pub data_categories : List String
  pub consented : Bool
  pub retention : String

pub record GrantRequest : Type 0 where
  pub workspace_id : String
  pub device_id : String
  pub connection_id : String
  pub operations : List ReadOperation
  pub expires_at : String
  pub account_read_consented : Bool
  pub egress : EgressConsent

pub record ConnectorGrant : Type 0 where
  pub grant_id : String
  pub generation : ℕ  -- u64
  pub scope : GrantRequest

-- `args` is the JSON text of the call; nothing here reads it.
pub record RuntimeReadContext : Type 0 where
  pub workspace_id : String
  pub run_id : String
  pub device_id : String
  pub connection_id : String
  pub grant_id : String
  pub generation : ℕ  -- u64
  pub runtime_origin : String
  pub model_origin : String
  pub operation : ReadOperation
  pub args : String
  pub expires_at : String

-- A `CancellationToken` is shared by its clones: the model names each token by a number.
abbrev pub Token : Type 0
Token = ℕ

pub record ActiveRead : Type 0 where
  pub id : String
  pub context : RuntimeReadContext
  pub cancel : Token

-- A key `(workspace, run)` of `cancelled_runs`, with the instant until which it is kept.
pub record RunFence : Type 0 where
  pub workspace : String
  pub run : String
  pub until : ℤ

-- `cancelled` holds the tokens on which `cancel()` was called.
pub record Grants : Type 0 where
  pub items : List (String × ConnectorGrant)
  pub active : List (String × ActiveRead)
  pub cancelled_runs : List RunFence
  pub cancelled : List Token

abbrev pub denied : AppError
denied = record {
  code = "connector_grant_denied";
  message = "This read does not have a current scoped account and model-egress grant.";
}

abbrev pub too_many_grants : AppError
too_many_grants = record { code = "connector_limit"; message = "Too many active account grants." }

abbrev pub cancellations_full : AppError
cancellations_full = record {
  code = "connector_limit";
  message = "Workspace account grants were revoked because the cancellation limit was reached.";
}

abbrev pub read_pending : AppError
read_pending = record {
  code = "connector_pending";
  message = "This connection already has an active read.";
}

abbrev pub max_grant_ms : ℕ
max_grant_ms = 3600000

abbrev pub max_read_ms : ℕ
max_read_ms = 120000

abbrev pub max_grants : ℕ
max_grants = 128

abbrev pub max_cancelled_runs : ℕ
max_cancelled_runs = 256
