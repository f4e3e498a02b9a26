-- ===== src/Core/Stops.antt =====
-- The part of `cancel` in src-tauri/src/runtime/runs.rs before it asks Hermes to stop: the state is
-- locked, and the cancellation of the request is stored.
use desktop_ai_dashboard.Prelude.{
  String, Bool, true, false, not, Option, none, some, ◌∷◌, ◌==◌, ◌⊎◌, inl, inr, string_eq, nat_eq,
  ok_or, reject_if, missing, stale,
}
use desktop_ai_dashboard.Prelude.Acts.{Act, ◌>>=◌, ◌>>◌, pure, lift, modify, ask}
use desktop_ai_dashboard.Prelude.Maps.{get, remove}
use desktop_ai_dashboard.Host.{Host}
use desktop_ai_dashboard.Runtime.Dto.{StoredRequest}
use desktop_ai_dashboard.Runtime.Requests.{runtime_request, runtime_pending, runtime_save_request}
use desktop_ai_dashboard.Runtime.Admission.{Session, session}
use desktop_ai_dashboard.Runtime.Runs.{terminal_workspace}
use desktop_ai_dashboard.Store.Queries.{ChatWorkspace}
use desktop_ai_dashboard.Core.{Core, on_tables}

abbrev pub stopped : StoredRequest → StoredRequest
stopped request = record request { cancel_requested = true }

module _ {S : Type 0} (host : Host) where
  -- `if let Some(token) = core.runtime_requests.remove(request_id) { token.cancel(); }`.
  abbrev pub cancel_token : String → Core S → Core S
  cancel_token id core = elim (get id core.runtime_requests) [
    | none ↦ core
    | some token ↦ record core {
      runtime_requests = remove id core.runtime_requests;
      cancelled = token ∷ core.cancelled;
    }
  ]

  -- What is done for a request whose reply still waits.
  unfoldable pub store_stop :
      Option Bool
      → String
      → StoredRequest
      → Act (Core S) (ChatWorkspace ⊎ (Session × StoredRequest))
  store_stop alive id request = do
    on_tables (runtime_pending host request)
    opened ← on_tables (session alive false)
    lift (reject_if (not (request.config_generation == opened.generation)) stale)
    on_tables (runtime_save_request (stopped request))
    modify (cancel_token id)
    pure (inr (opened, stopped request))

  -- The workspace, if the reply is settled already; else the session and the request to go on with.
  unfoldable pub request_cancel :
      Option Bool → String → String → Act (Core S) (ChatWorkspace ⊎ (Session × StoredRequest))
  request_cancel alive workspace id = do
    stored ← ask (λ core. runtime_request host id core.tables)
    request ← lift (ok_or stored missing)
    lift (reject_if (not (request.input.workspace_id == workspace)) missing)
    ended ← on_tables (terminal_workspace host workspace id)
    elim ended [ some settled ↦ pure (inl settled) | none ↦ store_stop alive id request ]
