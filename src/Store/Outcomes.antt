-- ===== src/Store/Outcomes.antt =====
-- The outcomes of the operations of src-tauri/src/store.rs, as edits of the tables.
use desktop_ai_dashboard.Prelude.{
  ℕ, ◌+◌, ◌≤◌, String, true, false, not, ◌&&◌, [], ◌∷◌, ◌++◌, ◌≡◌, retain, length, Option,
  if◌then◌else◌, arith, Bool-cases, inl, inr, ◌⊎◌, contains, string_eq, nat_eq, ◌==◌, ltb, leb, ok,
  err, done-cases, AppResult-cases, AppError, missing, stale,
}
use desktop_ai_dashboard.Prelude.Texts.{trim}
use desktop_ai_dashboard.Host.{Host}
use desktop_ai_dashboard.Validation
use desktop_ai_dashboard.Validation.{max_version, max_text}
use desktop_ai_dashboard.Runtime.Dto.{StoredRequest}
use desktop_ai_dashboard.Store.Tables.{Status, WorkspaceRow, Tables, update, count}
use desktop_ai_dashboard.Store.Queries.{ChatWorkspace, workspace, duplicate_request}
use desktop_ai_dashboard.Store.Chats.{
  without_workspace, exchange_rows, request_row, finishable, touch, create_workspace, update_draft,
  rename, delete, admit, start_captured, finish,
}

abbrev pub new_row : String → String → WorkspaceRow
new_row fresh now = record {
  id = fresh;
  title = "New workspace";
  created_at = now;
  updated_at = now;
  draft = "";
  draft_version = 0;
}

module _ (host : Host) where
  pub create_workspace_table :
      (fresh now : String) (t : Tables)
      → (create_workspace host fresh now t).0 ≡ (
          if leb 200 (length t.workspaces)
          then t
          else record t { workspaces = t.workspaces ++ new_row fresh now ∷ [] })
  unfolding create_workspace
  create_workspace_table fresh now t = ground arith

  abbrev pub drafted : String → String → ℕ → String → Tables → Tables
  drafted id draft version now t = record t {
    workspaces =
        update (λ w. w.id == id && ltb w.draft_version version)
          (λ w. record w { draft = draft; draft_version = version; updated_at = now }) t.workspaces;
  }

  pub update_draft_table :
      (id draft : String) (version : ℕ) (now : String) (t : Tables)
      → ((update_draft host id draft version now t).0 ≡ t)
        ⊎ ((version ≤ max_version)
            × ((update_draft host id draft version now t).0 ≡ drafted id draft version now t))
  unfolding update_draft
  update_draft_table id draft version now t = elim (done-cases (Validation.id host id)) [
    | inr (e, bad) ↦ inl (rw bad)
    | inl good ↦ elim (done-cases (Validation.text draft max_text true)) [
      | inr (e, bad) ↦ inl (rw (good, bad))
      | inl fine ↦ elim (Bool-cases (ltb max_version version)) [
        | inl over ↦ inl (rw (good, fine, over))
        | inr within ↦ inr (ground arith, rw (good, fine, within))
      ]
    ]
  ]

  abbrev pub renamed : String → String → String → Tables → Tables
  renamed id title now t = record t {
    workspaces =
        update (λ w. w.id == id) (λ w. record w { title = trim title; updated_at = now })
          t.workspaces;
  }

  pub rename_table :
      (id title now : String) (t : Tables)
      → ((rename host id title now t).0 ≡ t)
        ⊎ ((rename host id title now t).0 ≡ renamed id title now t)
  unfolding rename
  rename_table id title now t = elim (done-cases (Validation.id host id)) [
    | inr (e, bad) ↦ inl (rw bad)
    | inl good ↦ elim (done-cases (Validation.single_line title 100 false)) [
      | inr (e, bad) ↦ inl (rw (good, bad))
      | inl fine ↦ inr (rw (good, fine))
    ]
  ]

  abbrev pub deleted : String → Tables → Tables
  deleted id t = without_workspace id (record t {
    runtime_requests = retain (λ r. not (r.workspace_id == id)) t.runtime_requests;
    legacy_requests = retain (λ r. not (r.workspace_id == id)) t.legacy_requests;
    legacy_owners = retain (λ r. not (r.workspace_id == id)) t.legacy_owners;
  })

  -- `delete` either fails and changes nothing, or succeeds and removes the workspace.
  pub delete_outcome :
      (id : String) (t : Tables)
      → ((e : AppError) × (delete host id t ≡ (t, err e)))
        ⊎ ((Validation.id host id ≡ ok tt) × (delete host id t ≡ (deleted id t, ok tt)))
  unfolding delete
  delete_outcome id t = elim (done-cases (Validation.id host id)) [
    | inr (e, bad) ↦ inl (e, rw bad)
    | inl good ↦ elim (Bool-cases (count (λ w. w.id == id) t.workspaces == 0)) [
      | inl gone ↦ inl (missing, ground arith)
      | inr there ↦ inr (good, ground arith)
    ]
  ]

  abbrev pub started :
      String
      → String
      → String
      → ℕ
      → Option StoredRequest
      → String
      → String
      → String
      → Tables
      → Tables
  started id content request generation runtime user_id reply_id now t = record t {
    request_ids = t.request_ids ++ request ∷ [];
    runtime_requests = t.runtime_requests ++ request_row request id runtime;
    messages = t.messages ++ exchange_rows user_id reply_id id content request now generation;
    workspaces =
        update (λ w. w.id == id)
          (λ w. record w { draft = ""; draft_version = w.draft_version + 1; updated_at = now })
          t.workspaces;
  }

  -- What a request that is started has passed.
  pub record MayStart (id content request : String) (t : Tables) : Type 0 where
    pub valid_request : Validation.id host request ≡ ok tt
    pub valid_content : Validation.text content max_text false ≡ ok tt
    pub current : ChatWorkspace
    pub shown : workspace host id t ≡ ok current
    pub admitted : admit current content ≡ ok tt
    pub unused : contains t.request_ids request ≡ false

  module _ (id content request : String) (generation : ℕ) (runtime : Option StoredRequest)
      (user_id reply_id now : String) (t : Tables) where
    -- `start_captured` either fails and changes nothing, or all its checks pass and it succeeds.
    pub start_outcome :
        ((e : AppError) × (start_captured host id content request generation runtime user_id
              reply_id now t
            ≡ (t, err e)))
        ⊎ (MayStart id content request t
            × (start_captured host id content request generation runtime user_id reply_id now t
                ≡ (started id content request generation runtime user_id reply_id now t, ok tt)))
    unfolding start_captured
    start_outcome = elim (done-cases (Validation.id host request)) [
      | inr (e, bad) ↦ inl (e, rw bad)
      | inl good ↦ elim (done-cases (Validation.text content max_text false)) [
        | inr (e, bad) ↦ inl (e, rw (good, bad))
        | inl fine ↦ elim (AppResult-cases (workspace host id t)) [
          | inr (e, bad) ↦ inl (e, ground arith)
          | inl (current, shown) ↦ elim (done-cases (admit current content)) [
            | inr (e, bad) ↦ inl (e, ground arith)
            | inl admitted ↦ elim (Bool-cases (contains t.request_ids request)) [
              | inl used ↦ inl (duplicate_request, ground arith)
              | inr unused ↦ inr (
                record {
                  valid_request = good;
                  valid_content = fine;
                  current = current;
                  shown = shown;
                  admitted = admitted;
                  unused = unused;
                },
                ground arith,
              )
            ]
          ]
        ]
      ]
    ]

abbrev pub finished : String → String → ℕ → Status → String → String → Tables → Tables
finished id request generation status content now t = touch id now (record t {
  messages =
      update (finishable id request generation t.provider.generation)
        (λ m. record m { status = status; content = content }) t.messages;
})

-- `finish` fails and changes nothing, or there is exactly one row for it and it is settled.
pub finish_outcome :
    (id request : String) (generation : ℕ) (status : Status) (content now : String) (t : Tables)
    → (finish id request generation status content now t ≡ (t, err stale))
      ⊎ ((count (finishable id request generation t.provider.generation) t.messages ≡ 1)
          × (finish id request generation status content now t
              ≡ (finished id request generation status content now t, ok tt)))
unfolding finish
finish_outcome id request generation status content now t =
    elim (Bool-cases
      (count (finishable id request generation t.provider.generation) t.messages == 1)) [
        | inl one ↦ inr (ground arith, ground arith)
        | inr other ↦ inl (ground arith)
      ]
