-- ===== src/Store/Reuse.antt =====
-- The record of request identifiers of src-tauri/src/store.rs.
use desktop_ai_dashboard.Prelude.{
  ℕ, String, true, List, [], ◌∷◌, ◌≡◌, contains, Option, string_eq, nat_eq, arith, inl, inr, eq_iff,
  AppError, ok, err,
}
use desktop_ai_dashboard.Host.{Host}
use desktop_ai_dashboard.Runtime.Dto.{StoredRequest}
use desktop_ai_dashboard.Store.Tables.{Tables}
use desktop_ai_dashboard.Store.Chats.{
  set_provider, save_settings, start_captured, cancel_pending, invalidate_provider,
  interrupt_direct,
}
use desktop_ai_dashboard.Store.Rows.{contains-append_left, contains-append_right}
use desktop_ai_dashboard.Store.Outcomes.{
  create_workspace_table, update_draft_table, rename_table, delete_outcome, start_outcome, started,
  finish_outcome,
}
use desktop_ai_dashboard.Store.Operations.{
  Operation, saving_settings, setting_provider, creating, drafting, renaming, deleting, starting,
  finishing, cancelling, invalidating, reopening, apply, apply_all,
}

module _ (host : Host) where
  -- No operation takes a request identifier off the record.
  apply-keeps_ids :
      (op : Operation) (t : Tables) (request : String)
      → contains t.request_ids request ≡ true
      → contains (apply host op t).request_ids request ≡ true
  unfolding apply set_provider cancel_pending invalidate_provider interrupt_direct save_settings
  apply-keeps_ids (saving_settings input) t request used = ground arith
  apply-keeps_ids (setting_provider provider) t request used = used
  apply-keeps_ids (creating fresh now) t request used =
      ground (arith, create_workspace_table host fresh now t)
  apply-keeps_ids (drafting id draft version now) t request used =
      ground (arith, update_draft_table host id draft version now t)
  apply-keeps_ids (renaming id title now) t request used =
      ground (arith, rename_table host id title now t)
  apply-keeps_ids (deleting id) t request used = elim (delete_outcome host id t) [
    | inl (e, failed) ↦ ground arith
    | inr (valid, gone) ↦ ground arith
  ]
  apply-keeps_ids (starting id content new generation runtime user_id reply_id now) t request used =
      elim (start_outcome host id content new generation runtime user_id reply_id now t) [
        | inl (e, failed) ↦ ground arith
        | inr (may, done) ↦
            ground (arith, contains-append_left t.request_ids (new ∷ []) request used)
      ]
  apply-keeps_ids (finishing id done_request generation status content now) t request used =
      ground (arith, finish_outcome id done_request generation status content now t)
  apply-keeps_ids (cancelling id gone) t request used = used
  apply-keeps_ids (invalidating provider) t request used = used
  apply-keeps_ids reopening t request used = used

  apply_all-keeps_ids :
      (ops : List Operation) (t : Tables) (request : String)
      → contains t.request_ids request ≡ true
      → contains (apply_all host ops t).request_ids request ≡ true
  unfolding apply_all
  apply_all-keeps_ids [] t request used = used
  apply_all-keeps_ids (op ∷ ops) t request used =
      apply_all-keeps_ids ops (apply host op t) request (apply-keeps_ids op t request used)

  used_fails :
      (id content request : String) (generation : ℕ) (runtime : Option StoredRequest)
      (user_id reply_id now : String) (t : Tables)
      → contains t.request_ids request ≡ true
      → (e : AppError) × (start_captured host id content request generation runtime user_id reply_id
            now t
          ≡ (t, err e))
  used_fails id content request generation runtime user_id reply_id now t used =
      elim (start_outcome host id content request generation runtime user_id reply_id now t) [
        | inl failed ↦ failed
        | inr (may, done) ↦ absurd (let new = may.unused in cc)
      ]

  -- After a request has been started, whatever operations follow, deletions and restarts included,
  -- every start with the same identifier fails and changes nothing.
  pub start-never_again :
      (ops : List Operation) (request : String) (id content : String) (generation : ℕ)
      (runtime : Option StoredRequest) (user_id reply_id now : String) (id' content' : String)
      (generation' : ℕ) (runtime' : Option StoredRequest) (user_id' reply_id' now' : String)
      (t : Tables)
      → (start_captured host id content request generation runtime user_id reply_id now t).1 ≡ ok tt
      → let v =
          apply_all host ops
            (start_captured host id content request generation runtime user_id reply_id now t).0 in
        (e : AppError) × (start_captured host id' content' request generation' runtime' user_id'
            reply_id' now' v
          ≡ (v, err e))
  start-never_again ops request id content generation runtime user_id reply_id now id' content'
        generation' runtime' user_id' reply_id' now' t started_ =
      elim (start_outcome host id content request generation runtime user_id reply_id now t) [
        | inl (e, failed) ↦ absurd (let bad = rw failed at started_ in cc)
        | inr (may, done) ↦
            let u = started host id content request generation runtime user_id reply_id now t in
            rw done (
              used_fails id' content' request generation' runtime' user_id' reply_id' now'
                (apply_all host ops u)
                (apply_all-keeps_ids ops u request (
                  contains-append_right t.request_ids (request ∷ []) request
                    (ground (arith, eq_iff request request)))))
      ]
