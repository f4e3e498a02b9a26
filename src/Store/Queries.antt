-- ===== src/Store/Queries.antt =====
-- What src-tauri/src/store.rs shows of the chats: `summaries` and `workspace`, and its errors.
use Prim.Native.String.{len, compare}
use text.Mathlib.Text.{is_lt}
use desktop_ai_dashboard.Prelude.{
  ℕ, ◌+◌, String, Bool, ◌&&◌, ◌||◌, Option, none, some, List, [], ◌∷◌, map, ◌==◌, string_eq, nat_eq,
  length, retain, if◌then◌else◌, AppError, AppResult, ok, err, missing,
}
use desktop_ai_dashboard.Host.{Host}
use desktop_ai_dashboard.Validation
use desktop_ai_dashboard.Validation.{max_text, max_context, max_version}
use desktop_ai_dashboard.Store.Tables.{
  SettingsInput, ProviderConfig, Role, Status, is_complete, WorkspaceRow, MessageRow, Tables, find,
}

pub record AppSettings : Type 0 where
  pub schema_version : ℕ
  pub preferences : SettingsInput
  pub provider : ProviderConfig

pub record WorkspaceSummary : Type 0 where
  pub id : String
  pub title : String
  pub created_at : String
  pub updated_at : String
  pub message_count : ℕ

pub record ChatMessage : Type 0 where
  pub id : String
  pub role : Role
  pub content : String
  pub status : Status
  pub created_at : String
  pub request_id : Option String

pub record ChatWorkspace : Type 0 where
  pub summary : WorkspaceSummary
  pub draft : String
  pub draft_version : ℕ
  pub messages : List ChatMessage

abbrev pub workspace_limit : AppError
workspace_limit = record {
  code = "workspace_limit";
  message = "Workspace limit reached. Delete an unused workspace first.";
}

abbrev pub busy : AppError
busy = record { code = "busy"; message = "This workspace already has a pending reply." }

abbrev pub history_limit : AppError
history_limit = record {
  code = "history_limit";
  message = "This workspace is full. Start a new workspace to continue.";
}

abbrev pub context_limit : AppError
context_limit = record {
  code = "context_limit";
  message =
      "This chat exceeds the provider context limit. History is preserved; start a new workspace to continue.";
}

abbrev pub duplicate_request : AppError
duplicate_request = record {
  code = "duplicate_request";
  message = "This request was already used. Send again with a new request.";
}

abbrev pub in_workspace : String → MessageRow → Bool
in_workspace id m = m.workspace_id == id

abbrev pub summary_of : List MessageRow → WorkspaceRow → WorkspaceSummary
summary_of messages w = record {
  id = w.id;
  title = w.title;
  created_at = w.created_at;
  updated_at = w.updated_at;
  message_count = length (retain (in_workspace w.id) messages);
}

-- `ORDER BY w.updated_at DESC, w.id`.
abbrev before : WorkspaceSummary → WorkspaceSummary → Bool
before a b =
    is_lt (compare b.updated_at a.updated_at)
    || a.updated_at == b.updated_at && is_lt (compare a.id b.id)

unfoldable pub place : WorkspaceSummary → List WorkspaceSummary → List WorkspaceSummary
place s [] = s ∷ []
place s (r ∷ rs) = if before s r then s ∷ r ∷ rs else r ∷ place s rs

unfoldable pub sort_summaries : List WorkspaceSummary → List WorkspaceSummary
sort_summaries [] = []
sort_summaries (s ∷ ss) = place s (sort_summaries ss)

unfoldable pub summaries : Tables → AppResult (List WorkspaceSummary)
summaries t = ok (sort_summaries (map (summary_of t.messages) t.workspaces))

abbrev pub message_of : MessageRow → ChatMessage
message_of m = record {
  id = m.id;
  role = m.role;
  content = m.content;
  status = m.status;
  created_at = m.created_at;
  request_id = some m.request_id;
}

abbrev pub chat_of : List MessageRow → WorkspaceRow → ChatWorkspace
chat_of messages w = record {
  summary = summary_of messages w;
  draft = w.draft;
  draft_version = w.draft_version;
  messages = map message_of (retain (in_workspace w.id) messages);
}

abbrev pub row_of : String → Tables → Option WorkspaceRow
row_of id t = find (λ w. w.id == id) t.workspaces

-- `bytes` of `start_captured`: the complete messages and the new one.
abbrev pub content_bytes : List ChatMessage → ℕ
content_bytes [] = 0
content_bytes (m ∷ ms) =
    if is_complete m.status then len m.content + content_bytes ms else content_bytes ms

module _ (host : Host) where
  unfoldable pub workspace : String → Tables → AppResult ChatWorkspace
  workspace id t = elim (Validation.id host id) [
    | err e ↦ err e
    | ok _ ↦ elim (row_of id t) [ none ↦ err missing | some w ↦ ok (chat_of t.messages w) ]
  ]
