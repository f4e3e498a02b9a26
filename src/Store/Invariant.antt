-- ===== src/Store/Invariant.antt =====
-- The invariant of the chat tables of src-tauri/src/store.rs, and edits of the tables.
use desktop_ai_dashboard.Prelude.{
  ℕ, ◌≤◌, ◌<◌, String, Bool, true, not, ◌&&◌, List, [], ◌∷◌, ◌++◌, ◌≡◌, length, All, Option, some,
  none, arith, contains, string_eq, nat_eq, ◌==◌, eq_iff, length-append, length-retain-le,
}
use desktop_ai_dashboard.Validation.{max_version}
use desktop_ai_dashboard.Runtime.Dto.{StoredRequest}
use desktop_ai_dashboard.Store.Tables.{
  Status, is_pending, WorkspaceRow, MessageRow, RequestRow, Tables, update, count,
}
use desktop_ai_dashboard.Store.Chats.{without_workspace, exchange_rows, request_row}
use desktop_ai_dashboard.Store.Rows.{
  count-append, count-retain-le, count-update-le, count-update, All-append, All-retain, All-update,
  All-impl, contains-append_left, contains-append_right, length-update,
}

abbrev pub pending_in : String → MessageRow → Bool
pending_in id m = m.workspace_id == id && is_pending m.status

-- One workspace row for each identifier, at most one pending reply in a workspace, and every
-- request identifier that a message or a stored request bears is on record as used. Versions and
-- the number of workspaces are within their limits.
pub record Sound (workspaces : List WorkspaceRow) (request_ids : List String)
    (messages : List MessageRow) (requests : List RequestRow) : Type 0 where
  pub one_row : (id : String) → count (λ w. w.id == id) workspaces ≤ 1
  pub one_pending : (id : String) → count (pending_in id) messages ≤ 1
  pub used : All (λ m. contains request_ids m.request_id ≡ true) messages
  pub used_runtime : All (λ r. contains request_ids r.request_id ≡ true) requests
  pub versions : All (λ w. w.draft_version ≤ max_version) workspaces
  pub few_workspaces : length workspaces ≤ 200

abbrev pub IsSound : Tables → Type 0
IsSound t = Sound t.workspaces t.request_ids t.messages t.runtime_requests

abbrev pub settled : (MessageRow → Bool) → Status → String → Tables → Tables
settled q status content t = record t {
  messages = update q (λ m. record m { status = status; content = content }) t.messages;
}

-- Ending pending replies, as `finish`, `cancel_pending` and the clean-ups do.
pub settle-IsSound :
    (q : MessageRow → Bool) (status : Status) (content : String) (t : Tables)
    → ((m : MessageRow) → q m ≡ true → is_pending m.status ≡ true)
    → IsSound t
    → IsSound (settled q status content t)
settle-IsSound q status content t only v = record {
  one_row = v.one_row;
  one_pending = λ id. omega (
    arith,
    v.one_pending id,
    count-update-le (pending_in id) q (λ m. record m { status = status; content = content })
        t.messages (λ m hit still. ground (arith, only m hit)),
  );
  used =
      All-update (λ m. contains t.request_ids m.request_id ≡ true) q _ t.messages (λ m h hit. h)
        v.used;
  used_runtime = v.used_runtime;
  versions = v.versions;
  few_workspaces = v.few_workspaces;
}

-- Changing rows of `workspaces` but for their identifiers.
pub edit-IsSound :
    (q : WorkspaceRow → Bool) (f : WorkspaceRow → WorkspaceRow) (t : Tables)
    → ((w : WorkspaceRow) → (f w).id ≡ w.id)
    → ((w : WorkspaceRow)
        → w.draft_version ≤ max_version
        → q w ≡ true
        → (f w).draft_version ≤ max_version)
    → IsSound t
    → IsSound (record t { workspaces = update q f t.workspaces })
edit-IsSound q f t same within v = record {
  one_row = λ id.
      omega
        (arith, v.one_row id, count-update (λ w. w.id == id) q f t.workspaces (λ w. rw (same w)));
  one_pending = v.one_pending;
  used = v.used;
  used_runtime = v.used_runtime;
  versions = All-update (λ w. w.draft_version ≤ max_version) q f t.workspaces within v.versions;
  few_workspaces = omega (arith, length-update q f t.workspaces, v.few_workspaces);
}

pub without_workspace-IsSound :
    (id : String) (rows : List RequestRow) (t : Tables)
    → All (λ r. contains t.request_ids r.request_id ≡ true) rows
    → IsSound t
    → IsSound (without_workspace id (record t { runtime_requests = rows }))
without_workspace-IsSound id rows t listed v = record {
  one_row = λ k.
      omega
        (arith, v.one_row k, count-retain-le (λ w. w.id == k) (λ w. not (w.id == id)) t.workspaces);
  one_pending = λ k. omega (
    arith,
    v.one_pending k,
    count-retain-le (pending_in k) (λ m. not (m.workspace_id == id)) t.messages,
  );
  used = All-retain (λ m. contains t.request_ids m.request_id ≡ true) _ t.messages v.used;
  used_runtime = listed;
  versions = All-retain (λ w. w.draft_version ≤ max_version) _ t.workspaces v.versions;
  few_workspaces =
      omega (arith, v.few_workspaces, length-retain-le (λ w. not (w.id == id)) t.workspaces);
}

-- A new workspace, under an identifier that no row has.
pub add_workspace-IsSound :
    (w : WorkspaceRow) (t : Tables)
    → count (λ r. r.id == w.id) t.workspaces ≡ 0
    → w.draft_version ≤ max_version
    → length t.workspaces < 200
    → IsSound t
    → IsSound (record t { workspaces = t.workspaces ++ w ∷ [] })
add_workspace-IsSound w t new within room v = record {
  one_row = λ id. ground (
    arith,
    v.one_row id,
    count-append (λ r. r.id == id) t.workspaces (w ∷ []),
    eq_iff w.id id,
    new,
  );
  one_pending = v.one_pending;
  used = v.used;
  used_runtime = v.used_runtime;
  versions =
      All-append (λ r. r.draft_version ≤ max_version) t.workspaces (w ∷ []) v.versions (within, tt);
  few_workspaces = omega (arith, length-append t.workspaces (w ∷ []), room);
}

-- The two rows of a new exchange in a workspace with no pending reply.
pub add_exchange-IsSound :
    (id content request : String) (generation : ℕ) (runtime : Option StoredRequest)
    (user_id reply_id now : String) (t : Tables)
    → count (pending_in id) t.messages ≡ 0
    → IsSound t
    → IsSound (record t {
      request_ids = t.request_ids ++ request ∷ [];
      runtime_requests = t.runtime_requests ++ request_row request id runtime;
      messages = t.messages ++ exchange_rows user_id reply_id id content request now generation;
    })
add_exchange-IsSound id content request generation runtime user_id reply_id now t idle v =
    let listed : contains (t.request_ids ++ request ∷ []) request ≡ true =
      contains-append_right t.request_ids (request ∷ []) request
        (ground (arith, eq_iff request request)) in
    let kept = λ (a : String) (h : contains t.request_ids a ≡ true).
      contains-append_left t.request_ids (request ∷ []) a h in
    record {
      one_row = v.one_row;
      one_pending = λ k. ground (
        arith,
        v.one_pending k,
        count-append (pending_in k) t.messages
            (exchange_rows user_id reply_id id content request now generation),
        eq_iff id k,
        idle,
      );
      used =
          All-append _ t.messages _ (All-impl _ _ t.messages (λ m h. kept m.request_id h) v.used)
            (listed, (listed, tt));
      used_runtime =
          All-append _ t.runtime_requests _
            (All-impl _ _ t.runtime_requests (λ r h. kept r.request_id h) v.used_runtime)
            (row_listed request id runtime listed);
      versions = v.versions;
      few_workspaces = v.few_workspaces;
    }
  where
    row_listed :
        (request id : String) (runtime : Option StoredRequest)
        → contains (t.request_ids ++ request ∷ []) request ≡ true
        → All
            (λ r. contains (t.request_ids ++ request ∷ []) r.request_id ≡ true)
            (request_row request id runtime)
    row_listed request id none h = tt
    row_listed request id (some r) h = (h, tt)
