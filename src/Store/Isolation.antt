-- ===== src/Store/Isolation.antt =====
-- Deletion and drafts of src-tauri/src/store.rs, for one workspace and for the others.
use desktop_ai_dashboard.Prelude.{
  ℕ, String, true, false, not, ◌&&◌, List, [], ◌∷◌, ◌==◌, ◌≡◌, ◌≢◌, refl, Option, none, some,
  string_eq, nat_eq, any, retain, arith, Option-cases, inl, inr, eq_iff, AppError, ok, err, missing,
  if◌then◌else◌, ltb,
}
use desktop_ai_dashboard.Host.{Host}
use desktop_ai_dashboard.Runtime.Dto.{StoredRequest}
use desktop_ai_dashboard.Store.Tables.{WorkspaceRow, MessageRow, Tables}
use desktop_ai_dashboard.Store.Queries.{ChatWorkspace, workspace, row_of, in_workspace}
use desktop_ai_dashboard.Store.Chats.{delete, update_draft, start_captured}
use desktop_ai_dashboard.Store.Rows.{
  find-retain_gone, find-retain_other, retain-retain_other, find_some→count, find-update,
  find-update-none,
}
use desktop_ai_dashboard.Store.Outcomes.{deleted, delete_outcome, drafted, start_outcome}

module _ (host : Host) where
  gone_row : (id : String) (t : Tables) → row_of id (deleted host id t) ≡ none
  gone_row id t =
      find-retain_gone (λ w. w.id == id) (λ w. not (w.id == id)) t.workspaces (λ w h. ground arith)

  gone_messages :
      (id : String) (ms : List MessageRow)
      → any (in_workspace id) (retain (λ m. not (m.workspace_id == id)) ms) ≡ false
  gone_messages id [] = refl
  gone_messages id (m ∷ ms) = ground (arith, gone_messages id ms)

  -- After a successful deletion the workspace is not found and no message of it is left, a late
  -- start in it fails and changes nothing, and its request identifiers stay on record.
  pub delete-ends :
      (id : String) (t : Tables)
      → (delete host id t).1 ≡ ok tt
      → let u = (delete host id t).0 in
        (workspace host id u ≡ err missing)
        × (any (in_workspace id) u.messages ≡ false)
        × (u.request_ids ≡ t.request_ids)
        × ((content request : String) (generation : ℕ) (runtime : Option StoredRequest)
              (user_id reply_id now : String)
            → (e : AppError) × (start_captured host id content request generation runtime user_id
                  reply_id now u
                ≡ (u, err e)))
  unfolding workspace
  delete-ends id t h = elim (delete_outcome host id t) [
    | inl (e, failed) ↦ absurd (let bad = rw failed at h in cc)
    | inr (valid, gone) ↦
        let hidden : workspace host id (deleted host id t) ≡ err missing =
          ground (arith, gone_row id t) in
        rw gone (
          hidden,
          gone_messages id t.messages,
          refl,
          λ content request generation runtime user_id reply_id now.
              elim (start_outcome host id content request generation runtime user_id reply_id now
                (deleted host id t)) [
                  | inl failed ↦ failed
                  | inr (may, done) ↦ absurd (let shown = may.shown in cc)
                ],
        )
  ]

  -- A deletion, whether it succeeds or not, leaves what is shown of every workspace with another
  -- identifier.
  pub delete-others :
      (id other : String) (t : Tables)
      → id ≢ other
      → workspace host other (delete host id t).0 ≡ workspace host other t
  unfolding workspace
  delete-others id other t apart = elim (delete_outcome host id t) [
    | inl (e, failed) ↦ rw failed refl
    | inr (valid, gone) ↦
        let same : row_of other (deleted host id t) ≡ row_of other t =
          find-retain_other (λ w. w.id == other) (λ w. not (w.id == id)) t.workspaces
            (λ w own. ground (arith, eq_iff w.id other, eq_iff w.id id)) in
        rw gone (elim (Option-cases (row_of other t)) [
          | inl none_ ↦ ground arith
          | inr (w, found) ↦
              let own : (w.id == other) ≡ true =
                (find_some→count (λ (r : WorkspaceRow). r.id == other) t.workspaces found).1 in
              ground (
                arith,
                retain-retain_other (in_workspace w.id) (λ m. not (m.workspace_id == id)) t.messages
                    (λ m inside. ground (
                      arith,
                      eq_iff w.id other,
                      eq_iff m.workspace_id w.id,
                      eq_iff m.workspace_id id,
                    )),
              )
        ])
  ]

  -- When `update_draft` succeeds, drafts have not gone back: the row of the workspace has the new
  -- draft if its version was older than that of the update, and is as it was otherwise.
  pub update_draft-newer :
      (id draft : String) (version : ℕ) (now : String) (t : Tables) (c : ChatWorkspace)
      → (update_draft host id draft version now t).1 ≡ ok c
      → (w : WorkspaceRow) × (row_of id t ≡ some w)
        × (row_of id (update_draft host id draft version now t).0
            ≡ some (
                if ltb w.draft_version version
                then record w { draft = draft; draft_version = version; updated_at = now }
                else w))
  unfolding workspace update_draft
  update_draft-newer id draft version now t c h =
      let edited = drafted host id draft version now t in
      let (made, shown) : ((update_draft host id draft version now t).0 ≡ edited)
          × (workspace host id edited ≡ ok c) =
        ground arith in
      elim (Option-cases (row_of id t)) [
        | inl gone ↦
            let still =
              find-update-none (λ w. w.id == id) (λ w. w.id == id && ltb w.draft_version version)
                (λ w. record w { draft = draft; draft_version = version; updated_at = now })
                t.workspaces (λ w. refl) gone in
            absurd (ground arith)
        | inr (w, found) ↦
            let own : (w.id == id) ≡ true =
              (find_some→count (λ (r : WorkspaceRow). r.id == id) t.workspaces found).1 in
            let moved =
              find-update (λ w. w.id == id) (λ w. w.id == id && ltb w.draft_version version)
                (λ w. record w { draft = draft; draft_version = version; updated_at = now })
                t.workspaces {w = w} (λ w. refl) found in
            (w, found, ground arith)
      ]
