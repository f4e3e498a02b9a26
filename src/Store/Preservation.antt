-- ===== src/Store/Preservation.antt =====
-- The invariant of the chat tables and each operation of src-tauri/src/store.rs.
use desktop_ai_dashboard.Prelude.{
  ℕ, ◌+◌, ◌≤◌, ◌<◌, String, true, false, List, [], ◌∷◌, ◌≡◌, refl, any, retain, length, All, Option,
  some, map, arith, Bool-cases, Option-cases, inl, inr, contains, string_eq, nat_eq, ◌==◌, eq_iff,
  ltb, leb, ok, done-cases,
}
use desktop_ai_dashboard.Host.{Host}
use desktop_ai_dashboard.Validation
use desktop_ai_dashboard.Validation.{max_version}
use desktop_ai_dashboard.Runtime.Dto.{StoredRequest}
use desktop_ai_dashboard.Store.Tables.{
  Status, is_pending, WorkspaceRow, MessageRow, Tables, update, count, SettingsInput,
}
use desktop_ai_dashboard.Store.Queries.{
  ChatWorkspace, workspace, row_of, chat_of, message_of, in_workspace,
}
use desktop_ai_dashboard.Store.Chats.{
  save_settings, create_workspace, update_draft, rename, delete, admit, start_captured, finish,
  finishable,
}
use desktop_ai_dashboard.Store.Rows.{
  All-retain, All-zip, All-unique, All-update_to, count-update, length-update, any_false→count,
  find_some→count,
}
use desktop_ai_dashboard.Store.Invariant.{
  IsSound, settled, pending_in, settle-IsSound, edit-IsSound, without_workspace-IsSound,
  add_workspace-IsSound, add_exchange-IsSound,
}
use desktop_ai_dashboard.Store.Outcomes.{
  new_row, create_workspace_table, update_draft_table, rename_table, delete_outcome, MayStart,
  start_outcome, finish_outcome,
}

-- The pending rows of a workspace are among the messages that are shown of it.
pending_shown :
    (id : String) (ms : List MessageRow)
    → any (λ m. is_pending m.status) (map message_of (retain (in_workspace id) ms)) ≡ false
    → any (pending_in id) ms ≡ false
pending_shown id [] h = refl
pending_shown id (m ∷ ms) h = ground (arith, pending_shown id ms)

module _ (host : Host) where
  pub save_settings-IsSound :
      (input : SettingsInput) (t : Tables) → IsSound t → IsSound (save_settings input t).0
  unfolding save_settings
  save_settings-IsSound input t v =
      elim (done-cases (Validation.single_line input.display_name 80 true)) [
        | inr (e, bad) ↦ rw bad v
        | inl good ↦ elim (Bool-cases (ltb 2 input.onboarding_step)) [
          | inl over ↦ rw (good, over) v
          | inr within ↦ rw (good, within) v
        ]
      ]

  pub create_workspace-IsSound :
      (fresh now : String) (t : Tables)
      → count (λ w. w.id == fresh) t.workspaces ≡ 0
      → IsSound t
      → IsSound (create_workspace host fresh now t).0
  create_workspace-IsSound fresh now t new v =
      rw (create_workspace_table host fresh now t)
        (elim (Bool-cases (leb 200 (length t.workspaces))) [
          | inl full ↦ rw full v
          | inr room ↦
              rw room
                (add_workspace-IsSound (new_row fresh now) t new (omega arith) (ground arith) v)
        ])

  pub update_draft-IsSound :
      (id draft : String) (version : ℕ) (now : String) (t : Tables)
      → IsSound t
      → IsSound (update_draft host id draft version now t).0
  update_draft-IsSound id draft version now t v =
      elim (update_draft_table host id draft version now t) [
        | inl same ↦ rw same v
        | inr (within, edit) ↦ rw edit (edit-IsSound _ _ t (λ w. refl) (λ w old hit. within) v)
      ]

  pub rename-IsSound :
      (id title now : String) (t : Tables) → IsSound t → IsSound (rename host id title now t).0
  rename-IsSound id title now t v = elim (rename_table host id title now t) [
    | inl same ↦ rw same v
    | inr edit ↦ rw edit (edit-IsSound _ _ t (λ w. refl) (λ w old hit. old) v)
  ]

  pub delete-IsSound : (id : String) (t : Tables) → IsSound t → IsSound (delete host id t).0
  delete-IsSound id t v = elim (delete_outcome host id t) [
    | inl (e, failed) ↦ rw failed v
    | inr (valid, gone) ↦ rw gone (
        without_workspace-IsSound id _ t
          (All-retain (λ r. contains t.request_ids r.request_id ≡ true) _ t.runtime_requests
            v.used_runtime)
          v)
  ]

  -- What `workspace` shows when it succeeds.
  shown_row :
      (id : String) (t : Tables) {c : ChatWorkspace}
      → workspace host id t ≡ ok c
      → (w : WorkspaceRow) × (row_of id t ≡ some w) × (w.id ≡ id) × (c ≡ chat_of t.messages w)
  unfolding workspace
  shown_row id t {c} h = elim (done-cases (Validation.id host id)) [
    | inr (e, bad) ↦ absurd (ground arith)
    | inl good ↦ elim (Option-cases (row_of id t)) [
      | inl none_ ↦ absurd (ground arith)
      | inr (w, found) ↦ (
        w,
        found,
        (eq_iff w.id id).0
            (find_some→count (λ (r : WorkspaceRow). r.id == id) t.workspaces found).1,
        ground arith,
      )
    ]
  ]

  -- A workspace that `admit` lets through has no pending reply.
  pub idle_of_start :
      (id content request : String) (t : Tables)
      → MayStart host id content request t
      → count (pending_in id) t.messages ≡ 0
  unfolding admit
  idle_of_start id content request t may =
      let (w, found, own, same) = shown_row id t may.shown in
      let idle : any (λ m. is_pending m.status) may.current.messages ≡ false =
        elim (Bool-cases (any (λ m. is_pending m.status) may.current.messages)) [
          | inr idle ↦ idle
          | inl busy_ ↦ absurd (let bad = rw (busy_, admit) at may.admitted in cc)
        ] in
      any_false→count (pending_in id) t.messages
        (pending_shown id t.messages (rw own at (rw same at idle)))

  -- The versions stay within their limit: `admit` has seen that the one row is below it.
  start_versions :
      (id content request now : String) (t : Tables)
      → IsSound t
      → MayStart host id content request t
      → All
          (λ w. w.draft_version ≤ max_version)
          (update
            (λ w. w.id == id)
            (λ w. record w { draft = ""; draft_version = w.draft_version + 1; updated_at = now })
            t.workspaces)
  unfolding admit
  start_versions id content request now t v may =
      let (w, found, own, same) = shown_row id t may.shown in
      let below : w.draft_version < max_version = room may.current w same may.admitted in
      All-update_to (λ r. (r.draft_version ≤ max_version) × ((r.id == id) ≡ true → r ≡ w))
        (λ r. r.draft_version ≤ max_version) (λ w. w.id == id) _ t.workspaces
        (λ r h hit. let same_row : r ≡ w = h.1 hit in rw same_row (omega arith)) (λ r h. h.0)
        (All-zip (λ r. r.draft_version ≤ max_version) (λ r. (r.id == id) ≡ true → r ≡ w)
          t.workspaces v.versions (All-unique (λ r. r.id == id) t.workspaces (v.one_row id) found))
    where
      room :
          (c : ChatWorkspace) (w : WorkspaceRow)
          → c ≡ chat_of t.messages w
          → admit c content ≡ ok tt
          → w.draft_version < max_version
      room c w same admitted = ground arith

  pub start-IsSound :
      (id content request : String) (generation : ℕ) (runtime : Option StoredRequest)
      (user_id reply_id now : String) (t : Tables)
      → IsSound t
      → IsSound (start_captured host id content request generation runtime user_id reply_id now t).0
  start-IsSound id content request generation runtime user_id reply_id now t v =
      elim (start_outcome host id content request generation runtime user_id reply_id now t) [
        | inl (e, failed) ↦ rw failed v
        | inr (may, done) ↦
            let added =
              add_exchange-IsSound id content request generation runtime user_id reply_id now t
                (idle_of_start id content request t may) v in
            rw done (record {
              one_row = λ k. omega (
                arith,
                v.one_row k,
                count-update (λ w. w.id == k) (λ w. w.id == id)
                    (λ w. record w {
                      draft = "";
                      draft_version = w.draft_version + 1;
                      updated_at = now;
                    })
                    t.workspaces (λ w. refl),
              );
              one_pending = added.one_pending;
              used = added.used;
              used_runtime = added.used_runtime;
              versions = start_versions id content request now t v may;
              few_workspaces = omega (
                arith,
                v.few_workspaces,
                length-update (λ w. w.id == id)
                    (λ w. record w {
                      draft = "";
                      draft_version = w.draft_version + 1;
                      updated_at = now;
                    })
                    t.workspaces,
              );
            })
      ]

  pub finish-IsSound :
      (id request : String) (generation : ℕ) (status : Status) (content now : String) (t : Tables)
      → IsSound t
      → IsSound (finish id request generation status content now t).0
  finish-IsSound id request generation status content now t v =
      elim (finish_outcome id request generation status content now t) [
        | inl failed ↦ rw failed v
        | inr (one, done) ↦ rw done (
            edit-IsSound (λ w. w.id == id) (λ w. record w { updated_at = now })
              (settled (finishable id request generation t.provider.generation) status content t)
              (λ w. refl) (λ w old hit. old)
              (settle-IsSound (finishable id request generation t.provider.generation) status
                content t (λ m hit. ground arith) v))
      ]
