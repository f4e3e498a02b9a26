-- ===== src/Store/Operations.antt =====
-- The operations of src-tauri/src/store.rs as one step function, and the tables that sequences of
-- them reach.
use desktop_ai_dashboard.Prelude.{
  ℕ, String, not, ◌&&◌, List, [], ◌∷◌, ◌≡◌, Option, arith, string_eq, nat_eq, ◌==◌,
}
use desktop_ai_dashboard.Host.{Host}
use desktop_ai_dashboard.Runtime.Dto.{StoredRequest}
use desktop_ai_dashboard.Store.Tables.{
  Status, error, cancelled, is_pending, Tables, count, StoredProvider, SettingsInput,
}
use desktop_ai_dashboard.Store.Chats.{
  set_provider, save_settings, create_workspace, update_draft, rename, delete, start_captured,
  finish, cancel_pending, invalidate_provider, interrupt_direct, has_runtime, awaits,
}
use desktop_ai_dashboard.Store.Invariant.{IsSound, settle-IsSound}
use desktop_ai_dashboard.Store.Preservation.{
  save_settings-IsSound, create_workspace-IsSound, update_draft-IsSound, rename-IsSound,
  delete-IsSound, start-IsSound, finish-IsSound,
}

pub data Operation : Type 0 where
  saving_settings : SettingsInput → Operation
  setting_provider : StoredProvider → Operation
  creating : String → String → Operation
  drafting : String → String → ℕ → String → Operation
  renaming : String → String → String → Operation
  deleting : String → Operation
  starting :
      String → String → String → ℕ → Option StoredRequest → String → String → String → Operation
  finishing : String → String → ℕ → Status → String → String → Operation
  cancelling : String → String → Operation
  invalidating : StoredProvider → Operation
  reopening : Operation

module _ (host : Host) where
  unfoldable pub apply : Operation → Tables → Tables
  apply (saving_settings input) t = (save_settings input t).0
  apply (setting_provider provider) t = (set_provider provider t).0
  apply (creating fresh now) t = (create_workspace host fresh now t).0
  apply (drafting id draft version now) t = (update_draft host id draft version now t).0
  apply (renaming id title now) t = (rename host id title now t).0
  apply (deleting id) t = (delete host id t).0
  apply (starting id content request generation runtime user_id reply_id now) t =
      (start_captured host id content request generation runtime user_id reply_id now t).0
  apply (finishing id request generation status content now) t =
      (finish id request generation status content now t).0
  apply (cancelling id request) t = (cancel_pending id request t).0
  apply (invalidating provider) t = (invalidate_provider provider t).0
  apply reopening t = (interrupt_direct t).0

  unfoldable pub apply_all : List Operation → Tables → Tables
  apply_all [] t = t
  apply_all (op ∷ ops) t = apply_all ops (apply op t)

  -- A new workspace identifier is not in use.
  abbrev pub IsFresh : Operation → Tables → Type 0
  IsFresh (creating fresh now) t = count (λ w. w.id == fresh) t.workspaces ≡ 0
  IsFresh _ t = Unit

  pub apply-IsSound :
      (op : Operation) (t : Tables) → IsFresh op t → IsSound t → IsSound (apply op t)
  unfolding apply set_provider cancel_pending invalidate_provider interrupt_direct
  apply-IsSound (saving_settings input) t f v = save_settings-IsSound host input t v
  apply-IsSound (setting_provider provider) t f v = v
  apply-IsSound (creating fresh now) t f v = create_workspace-IsSound host fresh now t f v
  apply-IsSound (drafting id draft version now) t f v =
      update_draft-IsSound host id draft version now t v
  apply-IsSound (renaming id title now) t f v = rename-IsSound host id title now t v
  apply-IsSound (deleting id) t f v = delete-IsSound host id t v
  apply-IsSound (starting id content request generation runtime user_id reply_id now) t f v =
      start-IsSound host id content request generation runtime user_id reply_id now t v
  apply-IsSound (finishing id request generation status content now) t f v =
      finish-IsSound host id request generation status content now t v
  apply-IsSound (cancelling id request) t f v =
      settle-IsSound (awaits id request) cancelled _ t (λ m hit. ground arith) v
  apply-IsSound (invalidating provider) t f v =
      settle-IsSound (λ m. is_pending m.status && not (has_runtime t.runtime_requests m.request_id))
        cancelled _ t (λ m hit. ground arith) v
  apply-IsSound reopening t f v =
      settle-IsSound (λ m. is_pending m.status && not (has_runtime t.runtime_requests m.request_id))
        error _ t (λ m hit. ground arith) v

  -- The empty tables of `initialize`, with any settings and connections.
  pub data Reachable : Tables → Type 0 where
    start :
        {t : Tables}
        → t.workspaces ≡ []
        → t.request_ids ≡ []
        → t.messages ≡ []
        → t.runtime_requests ≡ []
        → Reachable t
    next : {t : Tables} → Reachable t → (op : Operation) → IsFresh op t → Reachable (apply op t)

  -- In all tables that the operations reach from the empty ones, with new workspace identifiers:
  -- one row for each workspace, at most one pending reply in a workspace, every request identifier
  -- of a message or of a stored request on record as used, no draft version above the limit and at
  -- most 200 workspaces.
  pub reachable_tables-IsSound : (t : Tables) → Reachable t → IsSound t
  reachable_tables-IsSound t (start w r m q) =
      rw (w, r, m, q)
        (record {
          one_row = λ id. omega arith;
          one_pending = λ id. omega arith;
          used = tt;
          used_runtime = tt;
          versions = tt;
          few_workspaces = omega arith;
        })
  reachable_tables-IsSound t (next {t = s} r op f) =
      apply-IsSound op s f (reachable_tables-IsSound s r)
