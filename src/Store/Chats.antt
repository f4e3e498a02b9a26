-- ===== src/Store/Chats.antt =====
-- Settings, workspaces and messages: src-tauri/src/store.rs, `impl Store`, from `provider` to
-- `invalidate_provider`. `fresh` identifiers are those that `Uuid::new_v4` yields, and `now` is the
-- text of the clock.
use Prim.Native.String.{len}
use desktop_ai_dashboard.Prelude.{
  ℕ, ◌+◌, String, Bool, true, false, not, ◌&&◌, ◌||◌, Option, none, some, List, [], ◌∷◌, ◌++◌, ◌==◌,
  string_eq, nat_eq, ltb, leb, length, any, retain, contains, if◌then◌else◌, AppResult, ok, err,
  reject_if, missing, stale, invalid,
}
use desktop_ai_dashboard.Prelude.Texts.{trim}
use desktop_ai_dashboard.Host.{Host}
use desktop_ai_dashboard.Validation
use desktop_ai_dashboard.Validation.{max_text, max_context, max_version}
use desktop_ai_dashboard.Runtime.Dto.{StoredRequest}
use desktop_ai_dashboard.Store.Queries.{
  AppSettings, ChatWorkspace, workspace_limit, busy, history_limit, context_limit,
  duplicate_request, content_bytes, workspace,
}
use desktop_ai_dashboard.Store.Tables.{
  SettingsInput, StoredProvider, user, assistant, Status, complete, pending, error, cancelled,
  is_pending, MessageRow, RequestRow, Tables, Db, ◌>>=◌, ◌>>◌, query, lift, execute, transaction,
  update, count,
}

unfoldable pub set_provider : StoredProvider → Db (Unit {0})
set_provider provider = execute λ t. record t { provider = provider }

unfoldable pub settings : Tables → AppResult AppSettings
settings t =
    ok (record { schema_version = 1; preferences = t.preferences; provider = t.provider.config })

unfoldable pub save_settings : SettingsInput → Db AppSettings
save_settings input = do
  lift (Validation.single_line input.display_name 80 true)
  lift (reject_if (ltb 2 input.onboarding_step) invalid)
  execute λ t. record t { preferences = input }
  query settings

-- The rows of the other tables that reference the workspace go with it (`ON DELETE CASCADE`).
abbrev pub without_workspace : String → Tables → Tables
without_workspace id t = record t {
  workspaces = retain (λ w. not (w.id == id)) t.workspaces;
  messages = retain (λ m. not (m.workspace_id == id)) t.messages;
  runtime_workspaces = retain (λ r. not (r.workspace_id == id)) t.runtime_workspaces;
  runtime_sessions = retain (λ r. not (r.workspace_id == id)) t.runtime_sessions;
  runtime_owners = retain (λ r. not (r.workspace_id == id)) t.runtime_owners;
}

abbrev pub request_row : String → String → Option StoredRequest → List RequestRow
request_row request workspace none = []
request_row request workspace (some value) =
    record { request_id = request; workspace_id = workspace; value = value } ∷ []

-- The two rows of one exchange.
abbrev pub exchange_rows : String → String → String → String → String → String → ℕ → List MessageRow
exchange_rows user_id reply_id workspace content request now generation =
    record {
      id = user_id;
      workspace_id = workspace;
      role = user;
      content = content;
      status = complete;
      created_at = now;
      request_id = request;
      generation = generation;
    }
    ∷ record {
      id = reply_id;
      workspace_id = workspace;
      role = assistant;
      content = "";
      status = pending;
      created_at = now;
      request_id = request;
      generation = generation;
    }
    ∷ []

-- The checks of `start_captured` before its transaction.
unfoldable pub admit : ChatWorkspace → String → AppResult (Unit {0})
admit current content =
    if any (λ m. is_pending m.status) current.messages
    then err busy
    else if leb 2000 (length current.messages) || leb max_version current.draft_version
    then err history_limit
    else reject_if (ltb max_context (content_bytes current.messages + len content)) context_limit

module _ (host : Host) where
  unfoldable pub create_workspace : String → String → Db ChatWorkspace
  create_workspace fresh now = do
    query λ t. reject_if (leb 200 (length t.workspaces)) workspace_limit
    execute λ t. record t {
      workspaces =
          t.workspaces
          ++ record {
            id = fresh;
            title = "New workspace";
            created_at = now;
            updated_at = now;
            draft = "";
            draft_version = 0;
          }
            ∷ [];
    }
    query (workspace host fresh)

  unfoldable pub update_draft : String → String → ℕ → String → Db ChatWorkspace
  update_draft id draft version now = do
    lift (Validation.id host id)
    lift (Validation.text draft max_text true)
    lift (reject_if (ltb max_version version) invalid)
    execute λ t. record t {
      workspaces =
          update (λ w. w.id == id && ltb w.draft_version version)
            (λ w. record w { draft = draft; draft_version = version; updated_at = now })
            t.workspaces;
    }
    query (workspace host id)

  unfoldable pub rename : String → String → String → Db ChatWorkspace
  rename id title now = do
    lift (Validation.id host id)
    lift (Validation.single_line title 100 false)
    execute λ t. record t {
      workspaces =
          update (λ w. w.id == id) (λ w. record w { title = trim title; updated_at = now })
            t.workspaces;
    }
    query (workspace host id)

  unfoldable pub delete : String → Db (Unit {0})
  delete id = do
    lift (Validation.id host id)
    transaction (do
      execute λ t. record t {
        runtime_requests = retain (λ r. not (r.workspace_id == id)) t.runtime_requests;
        legacy_requests = retain (λ r. not (r.workspace_id == id)) t.legacy_requests;
        legacy_owners = retain (λ r. not (r.workspace_id == id)) t.legacy_owners;
      }
      query λ t. reject_if (count (λ w. w.id == id) t.workspaces == 0) missing
      execute (without_workspace id))

  unfoldable pub start_captured :
      String → String → String → ℕ → Option StoredRequest → String → String → String → Db (Unit {0})
  start_captured id content request generation runtime user_id reply_id now = do
    lift (Validation.id host request)
    lift (Validation.text content max_text false)
    current ← query (workspace host id)
    lift (admit current content)
    transaction (do
      query λ t. reject_if (contains t.request_ids request) duplicate_request
      execute λ t. record t {
        request_ids = t.request_ids ++ request ∷ [];
        runtime_requests = t.runtime_requests ++ request_row request id runtime;
        messages = t.messages ++ exchange_rows user_id reply_id id content request now generation;
        workspaces =
            update (λ w. w.id == id)
              (λ w. record w { draft = ""; draft_version = w.draft_version + 1; updated_at = now })
              t.workspaces;
      })

  unfoldable pub start : String → String → String → ℕ → String → String → String → Db (Unit {0})
  unfolding start_captured
  start id content request generation user_id reply_id now =
      start_captured id content request generation none user_id reply_id now

-- `UPDATE workspaces SET updated_at=?1 WHERE id=?2`.
abbrev pub touch : String → String → Tables → Tables
touch id now t = record t {
  workspaces = update (λ w. w.id == id) (λ w. record w { updated_at = now }) t.workspaces;
}

abbrev pub awaits : String → String → MessageRow → Bool
awaits id request m = m.workspace_id == id && m.request_id == request && is_pending m.status

abbrev pub finishable : String → String → ℕ → ℕ → MessageRow → Bool
finishable id request generation current m =
    awaits id request m && m.generation == generation && m.generation == current

unfoldable pub finish : String → String → ℕ → Status → String → String → Db (Unit {0})
finish id request generation status content now = transaction (do
  query λ t.
      reject_if
        (not (count (finishable id request generation t.provider.generation) t.messages == 1)) stale
  execute λ t. record t {
    messages =
        update (finishable id request generation t.provider.generation)
          (λ m. record m { status = status; content = content }) t.messages;
  }
  execute (touch id now))

unfoldable pub cancel_pending : String → String → Db (Unit {0})
cancel_pending id request = execute λ t. record t {
  messages =
      update (awaits id request)
        (λ m. record m { status = cancelled; content = "Reply cancelled." }) t.messages;
}

-- `request_id IN (SELECT request_id FROM runtime_requests)`.
abbrev pub has_runtime : List RequestRow → String → Bool
has_runtime rows request = any (λ r. r.request_id == request) rows

unfoldable pub invalidate_provider : StoredProvider → Db (Unit {0})
invalidate_provider provider = transaction (
    execute λ t. record t {
      provider = provider;
      messages =
          update (λ m. is_pending m.status && not (has_runtime t.runtime_requests m.request_id))
            (λ m. record m {
              status = cancelled;
              content = "Reply cancelled because the AI connection changed.";
            })
            t.messages;
    })

-- The clean-up of `initialize`: direct completions do not survive a restart.
unfoldable pub interrupt_direct : Db (Unit {0})
interrupt_direct = execute λ t. record t {
  messages =
      update (λ m. is_pending m.status && not (has_runtime t.runtime_requests m.request_id))
        (λ m. record m {
          status = error;
          content = "Interrupted when Forma closed. Send a new message to try again.";
        })
        t.messages;
}
