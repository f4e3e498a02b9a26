-- ===== src/Core/Stopped.antt =====
-- What the stored cancellation of a request means for its run: src-tauri/src/runtime/runs.rs.
use desktop_ai_dashboard.Prelude.{
  ℕ, String, Bool, true, false, Option, none, some, List, [], ◌∷◌, ◌≡◌, inl, inr, refl, ◌==◌, ◌∙◌,
  string_eq, nat_eq, contains, arith, eq_iff, eq_refl, All, ok, err, stale, AppResult-cases,
  done-cases, Bool-cases, Option-cases,
}
use desktop_ai_dashboard.Prelude.Maps.{get, get-remove}
use desktop_ai_dashboard.Host.{Host}
use desktop_ai_dashboard.Validation
use desktop_ai_dashboard.Runtime.Dto.{StoredRequest, RunPoll, Json}
use desktop_ai_dashboard.Runtime.Requests.{
  own_row, value_of, runtime_request, runtime_pending, runtime_save_request, runtime_current,
  runtime_finish,
}
use desktop_ai_dashboard.Runtime.Storage.{runtime_config, runtime_status}
use desktop_ai_dashboard.Runtime.Admission.{Session, session}
use desktop_ai_dashboard.Runtime.Runs.{terminal_workspace, apply_poll}
use desktop_ai_dashboard.Runtime.Fences.{runtime_pending-IsRouted}
use desktop_ai_dashboard.Store.Tables.{Tables, Status, RequestRow, update, find}
use desktop_ai_dashboard.Core.{Core}
use desktop_ai_dashboard.Core.Stops.{stopped, cancel_token, store_stop, request_cancel}

-- A stored request stands in the row of its own identifiers.
abbrev pub IsOwn : RequestRow → Type 0
IsOwn r = own_row r.value r ≡ true

-- Saving a request that was read puts it where it was read.
find-update :
    (id : String) (rows : List RequestRow) (request next : StoredRequest)
    → All IsOwn rows
    → value_of (find (λ r. r.request_id == id) rows) ≡ some request
    → next.progress.request_id ≡ request.progress.request_id
    → next.input.workspace_id ≡ request.input.workspace_id
    → value_of (
        find
          (λ r. r.request_id == id)
          (update (own_row next) (λ r. record r { value = next }) rows))
      ≡ some next
find-update id [] request next own h p w = cc
find-update id (r ∷ rows) request next (own, owns) h p w = elim (Bool-cases (r.request_id == id)) [
  | inl here ↦ ground (arith, eq_iff r.request_id r.value.progress.request_id)
  | inr past ↦ ground (arith, find-update id rows request next owns)
]

session-kept : (alive : Option Bool) (ready : Bool) (t : Tables) → (session alive ready t).0 ≡ t
unfolding session runtime_status runtime_config
session-kept alive ready t = ground arith

abbrev pub IsStopped : Option ℕ → List ℕ → Type 0
IsStopped none tokens = Unit
IsStopped (some token) tokens = contains tokens token ≡ true

terminal-kept :
    (host : Host) (workspace id : String) (t : Tables)
    → (terminal_workspace host workspace id t).0 ≡ t
unfolding terminal_workspace
terminal-kept host workspace id t = ground arith

-- A stored request is read under an identifier that is valid.
runtime_request-stored :
    (host : Host) (id : String) (t : Tables) (request : StoredRequest)
    → runtime_request host id t ≡ ok (some request)
    → (Validation.id host id ≡ ok tt)
      × (value_of (find (λ r. r.request_id == id) t.runtime_requests) ≡ some request)
unfolding runtime_request
runtime_request-stored host id t request h = elim (done-cases (Validation.id host id)) [
  | inr (e, p) ↦ absurd (ground arith)
  | inl p ↦ ground arith
]

same_requests :
    (host : Host) (id : String) (t u : Tables)
    → u.runtime_requests ≡ t.runtime_requests
    → runtime_request host id u ≡ runtime_request host id t
unfolding runtime_request
same_requests host id t u e = rw e refl

save-stored :
    (host : Host) (id : String) (t : Tables) (request : StoredRequest)
    → All IsOwn t.runtime_requests
    → runtime_request host id t ≡ ok (some request)
    → (runtime_request host id (runtime_save_request (stopped request) t).0
        ≡ ok (some (stopped request)))
      × ((runtime_save_request (stopped request) t).0.messages ≡ t.messages)
unfolding runtime_request runtime_save_request
save-stored host id t request own h =
    let (valid, there) = runtime_request-stored host id t request h in
    ground (arith, find-update id t.runtime_requests request (stopped request) own there refl refl)

held-stored :
    (host : Host) (d : Tables) (next held : StoredRequest) (id : String)
    → runtime_request host id d ≡ ok (some next)
    → held.progress.request_id ≡ id
    → runtime_request host held.progress.request_id d ≡ ok (some next)
held-stored host d next held id stored same = rw same stored

module _ {S : Type 0} (host : Host) where
  cancel_token-stops :
      (id : String) (c : Core S)
      → ((cancel_token host id c).tables ≡ c.tables)
        × IsStopped (get id c.runtime_requests) (cancel_token host id c).cancelled
        × (get id (cancel_token host id c).runtime_requests ≡ none)
  cancel_token-stops id c = elim (Option-cases (get id c.runtime_requests)) [
    | inl e ↦ ground arith
    | inr (token, e) ↦ ground (arith, get-remove id id c.runtime_requests, eq_refl id)
  ]

  store_stop-stored :
      (alive : Option Bool) (id : String) (request next : StoredRequest) (opened : Session)
      (c : Core S)
      → All IsOwn c.tables.runtime_requests
      → runtime_request host id c.tables ≡ ok (some request)
      → (store_stop host alive id request c).0 ≡ ok (inr (opened, next))
      → let d = (store_stop host alive id request c).1 in
        (next ≡ stopped request)
        × (runtime_request host id d.tables ≡ ok (some next))
        × (d.tables.messages ≡ c.tables.messages)
        × IsStopped (get id c.runtime_requests) d.cancelled
        × (get id d.runtime_requests ≡ none)
  unfolding store_stop
  store_stop-stored alive id request next opened c own h g =
      let t = (runtime_pending host request c.tables).0 in
      let (messages, requests, w_, ids, cfg) = runtime_pending-IsRouted host request c.tables in
      let read : runtime_request host id t ≡ ok (some request) =
        same_requests host id c.tables t requests ∙ h in
      let owns : All IsOwn t.runtime_requests = rw requests own in
      let kept = session-kept alive false t in
      let (stored, shown) = save-stored host id t request owns read in
      elim (done-cases (runtime_pending host request c.tables).1) [
        | inr (e, p) ↦ absurd (ground arith)
        | inl p ↦ elim (AppResult-cases (session alive false t).1) [
          | inr (e, q) ↦ absurd (ground arith)
          | inl (o, q) ↦ elim (Bool-cases (request.config_generation == o.generation)) [
            | inr m ↦ absurd (ground arith)
            | inl m ↦ elim (done-cases (runtime_save_request (stopped request) t).1) [
              | inr (e, r) ↦ absurd (ground arith)
              | inl r ↦
                  let saved : Core S = record c {
                    tables = (runtime_save_request (stopped request) t).0;
                  } in
                  let (tables, token, gone) = cancel_token-stops id saved in
                  (ground arith, ground arith, ground arith, ground arith, ground arith)
            ]
          ]
        ]
      ]

  request_cancel-store_stop :
      (alive : Option Bool) (workspace id : String) (next : StoredRequest) (opened : Session)
      (c : Core S)
      → (request_cancel host alive workspace id c).0 ≡ ok (inr (opened, next))
      → (request : StoredRequest) × (runtime_request host id c.tables ≡ ok (some request))
        × (request_cancel host alive workspace id c ≡ store_stop host alive id request c)
  unfolding request_cancel
  request_cancel-store_stop alive workspace id next opened c h =
      elim (AppResult-cases (runtime_request host id c.tables)) [
        | inr (e, p) ↦ absurd (ground arith)
        | inl (found, p) ↦ elim (Option-cases found) [
          | inl q ↦ absurd (ground arith)
          | inr (request, q) ↦
              let kept = terminal-kept host workspace id c.tables in
              elim (Bool-cases (request.input.workspace_id == workspace)) [
                | inr w ↦ absurd (ground arith)
                | inl w ↦ elim (AppResult-cases (terminal_workspace host workspace id c.tables).1) [
                  | inr (e, t) ↦ absurd (ground arith)
                  | inl (ended, t) ↦ elim (Option-cases ended) [
                    | inr (settled, u) ↦ absurd (ground arith)
                    | inl u ↦
                        let read : runtime_request host id c.tables ≡ ok (some request) =
                          ground arith in
                        let whole : terminal_workspace host workspace id c.tables
                            ≡ (c.tables, ok none) =
                          ground arith in
                        (request, read, rw read (rw w (rw whole refl)))
                  ]
                ]
              ]
        ]
      ]

  request_cancel-stored :
      (alive : Option Bool) (workspace id : String) (next : StoredRequest) (opened : Session)
      (c : Core S)
      → All IsOwn c.tables.runtime_requests
      → (request_cancel host alive workspace id c).0 ≡ ok (inr (opened, next))
      → let d = (request_cancel host alive workspace id c).1 in
        (next.cancel_requested ≡ true)
        × (runtime_request host id d.tables ≡ ok (some next))
        × (d.tables.messages ≡ c.tables.messages)
        × IsStopped (get id c.runtime_requests) d.cancelled
        × (get id d.runtime_requests ≡ none)
  request_cancel-stored alive workspace id next opened c own h =
      let (request, read, same) = request_cancel-store_stop alive workspace id next opened c h in
      let (marked, stored, messages, token, gone) =
        store_stop-stored alive id request next opened c own read (ground arith) in
      rw same (ground arith)

  module _ (json : Json) where
    -- Where each stored request stands in the row of its own identifiers: once `cancel` has stored
    -- the cancellation of a request and goes on to ask Hermes, the token of the request, if it had
    -- one, is cancelled and forgotten, and no message has changed. Every page of the run that comes
    -- now is refused as stale, and so is every attempt to publish a reply from any copy of the
    -- request, also one that was read before the cancellation. Neither changes anything at all.
    pub request_cancel-refuses :
        (alive : Option Bool) (workspace id : String) (next held : StoredRequest) (opened : Session)
        (c : Core S) (poll : RunPoll) (status : Status) (text now : String)
        → All IsOwn c.tables.runtime_requests
        → (request_cancel host alive workspace id c).0 ≡ ok (inr (opened, next))
        → held.progress.request_id ≡ id
        → let d = (request_cancel host alive workspace id c).1 in
          (d.tables.messages ≡ c.tables.messages)
          × IsStopped (get id c.runtime_requests) d.cancelled
          × (get id d.runtime_requests ≡ none)
          × (apply_poll host json id poll now d.tables ≡ (d.tables, err stale))
          × (runtime_finish host held status text now d.tables ≡ (d.tables, err stale))
    unfolding apply_poll runtime_finish runtime_current
    request_cancel-refuses alive workspace id next held opened c poll status text now own h same =
        let (marked, stored, messages, token, gone) =
          request_cancel-stored alive workspace id next opened c own h in
        let d = (request_cancel host alive workspace id c).1 in
        let again = held-stored host d.tables next held id stored same in
        (messages, token, gone, ground arith, ground arith)
