-- ===== src/Runtime/Fences.antt =====
-- What the operations of src-tauri/src/runtime/storage.rs and runs.rs do to the messages.
use desktop_ai_dashboard.Prelude.{
  String, true, false, ◌==◌, ◌≡◌, ◌⊎◌, string_eq, nat_eq, any, arith, Bool-cases, done-cases,
  AppResult-cases, inl, inr, AppError, ok, err, stale,
}
use desktop_ai_dashboard.Host.{Host}
use desktop_ai_dashboard.Validation
use desktop_ai_dashboard.Runtime.Dto.{StoredRequest, RuntimeWorkspace}
use desktop_ai_dashboard.Runtime.Storage.{
  runtime_config, runtime_status, runtime_save_workspace, runtime_workspace, default_workspace,
}
use desktop_ai_dashboard.Runtime.Requests.{
  store_request, publishable, runtime_pending, runtime_current, runtime_finish,
}
use desktop_ai_dashboard.Runtime.Runs.{initialize_remote}
use desktop_ai_dashboard.Store.Tables.{Status, Tables, update, count}
use desktop_ai_dashboard.Store.Chats.{awaits, touch}

-- The two tables differ in the routes of workspaces and the owners at most.
abbrev pub IsRouted : Tables → Tables → Type 0
IsRouted t u =
    (u.messages ≡ t.messages)
    × (u.runtime_requests ≡ t.runtime_requests)
    × (u.workspaces ≡ t.workspaces)
    × (u.request_ids ≡ t.request_ids)
    × (u.runtime_config ≡ t.runtime_config)

module _ (host : Host) where
  pub save_workspace-IsRouted :
      (value : RuntimeWorkspace) (t : Tables) → IsRouted t (runtime_save_workspace host value t).0
  unfolding runtime_save_workspace runtime_status
  save_workspace-IsRouted value t = ground arith

  pub runtime_workspace-IsRouted :
      (id : String) (t : Tables) → IsRouted t (runtime_workspace host id t).0
  unfolding runtime_workspace
  runtime_workspace-IsRouted id t =
      ground (arith, save_workspace-IsRouted (default_workspace host id t) t)

  pub runtime_pending-IsRouted :
      (request : StoredRequest) (t : Tables) → IsRouted t (runtime_pending host request t).0
  unfolding runtime_pending runtime_config
  runtime_pending-IsRouted request t =
      ground (arith, runtime_workspace-IsRouted request.input.workspace_id t)

  pub runtime_current-IsRouted :
      (request : StoredRequest) (t : Tables) → IsRouted t (runtime_current host request t).0
  unfolding runtime_current
  runtime_current-IsRouted request t = ground (arith, runtime_pending-IsRouted request t)

  pub initialize_remote-IsRouted :
      (id : String) (t : Tables) → IsRouted t (initialize_remote host id t).0
  unfolding initialize_remote
  initialize_remote-IsRouted id t = elim (AppResult-cases (runtime_workspace host id t).1) [
    | inr (e, failed) ↦ ground (arith, runtime_workspace-IsRouted id t)
    | inl (route, found) ↦ ground (
      arith,
      runtime_workspace-IsRouted id t,
      save_workspace-IsRouted (record route { remote_initialized = true })
          (runtime_workspace host id t).0,
    )
  ]

  -- A request that is marked as cancelled never passes the check before publication.
  current-fenced :
      (request : StoredRequest) (t : Tables)
      → (runtime_current host request t).1 ≡ ok tt
      → (request.cancel_requested ≡ false)
        × (any (awaits request.input.workspace_id request.progress.request_id) t.messages ≡ true)
        × (t.runtime_config.config.generation ≡ request.config_generation)
        × (t.runtime_config.config.enabled ≡ true)
  unfolding runtime_current runtime_pending runtime_config
  current-fenced request t h =
      ground (arith, runtime_workspace-IsRouted request.input.workspace_id t)

  abbrev pub published : StoredRequest → Status → String → String → Tables → Tables
  published request status text now t = touch request.input.workspace_id now (
      store_request request (record t {
        messages =
            update (publishable request) (λ m. record m { status = status; content = text })
              t.messages;
      }))

  -- `runtime_finish` either changes no message, or the request is current and not cancelled and
  -- exactly its one pending reply is settled.
  pub runtime_finish_outcome :
      (request : StoredRequest) (status : Status) (text now : String) (t : Tables)
      → ((e : AppError) × (((runtime_finish host request status text now t).1 ≡ err e)
            × ((runtime_finish host request status text now t).0.messages ≡ t.messages)
            × ((runtime_finish host request status text now t).0.runtime_requests
                ≡ t.runtime_requests)))
        ⊎ ((request.cancel_requested ≡ false)
            × (t.runtime_config.config.generation ≡ request.config_generation)
            × (count (publishable request) t.messages ≡ 1)
            × ((runtime_finish host request status text now t).1 ≡ ok tt)
            × ((runtime_finish host request status text now t).0
                ≡ published request status text now (runtime_current host request t).0))
  unfolding runtime_finish
  runtime_finish_outcome request status text now t =
      elim (done-cases (runtime_current host request t).1) [
        | inr (e, bad) ↦ inl (e, ground (arith, runtime_current-IsRouted request t))
        | inl good ↦ elim (done-cases (Validation.text text 100000 true)) [
          | inr (e, long) ↦ inl (e, ground (arith, runtime_current-IsRouted request t))
          | inl short ↦
              elim (Bool-cases
                (count (publishable request) (runtime_current host request t).0.messages == 1)) [
                  | inr other ↦ inl (stale, ground (arith, runtime_current-IsRouted request t))
                  | inl one ↦
                      inr (
                        ground
                          (arith, runtime_current-IsRouted request t, current-fenced request t))
                ]
        ]
      ]
