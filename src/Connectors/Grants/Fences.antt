-- ===== src/Connectors/Grants/Fences.antt =====
-- Cancelled runs: `cancel_run` of src-tauri/src/connectors/grants.rs and the operations after it.
use desktop_ai_dashboard.Prelude.{
  ℤ, ◌≤ℤ◌, ◌<ℤ◌, later, later_parts, String, true, false, List, [], ◌∷◌, Memᴰ, ◌≡◌, ◌≢◌, refl,
  string_eq, nat_eq, arith, eq_iff, Bool-cases, inl, inr, All, ok, is_ok, done-cases, ◌>>◌, leb,
  length, Memᴰ→any, Memᴰ→retain,
}
use desktop_ai_dashboard.Host.{Host}
use desktop_ai_dashboard.Connectors.Status.{ConnectorStatus}
use desktop_ai_dashboard.Connectors.Grants.Types.{
  GrantRequest, RuntimeReadContext, Token, RunFence, Grants, max_cancelled_runs, max_grant_ms,
}
use desktop_ai_dashboard.Connectors.Grants.Requests.{identity}
use desktop_ai_dashboard.Connectors.Grants.Table.{
  end_reads, revoke, revoke_connection, finish, expire, register, list_grants, check, begin, decide,
  check_read, cancel_run, same_run, fence_run,
}
use desktop_ai_dashboard.Connectors.Grants.Access.{decide→Authorized, IsUnfenced→is_fenced}
use desktop_ai_dashboard.Connectors.Grants.Expiry.{revoke_all-fences, expire-fences}
use desktop_ai_dashboard.Connectors.Grants.Operations.{
  Operation, registering, listing, checking, beginning, checking_read, finishing, revoking,
  disconnecting, cancelling, apply, apply_all,
}

-- The run is fenced at least until the instant.
pub record IsFencedUntil (workspace run : String) (until : ℤ) (fences : List RunFence)
    : Type 0 where
  pub fence : RunFence
  pub listed : Memᴰ fence fences
  pub own : same_run workspace run fence ≡ true
  pub lasting : until ≤ℤ fence.until

-- The clock of an operation that reads it lies in the window.
abbrev pub IsWithin : ℤ → ℤ → Operation → Type 0
IsWithin from until (registering request status now fresh) = (from ≤ℤ now) × (now <ℤ until)
IsWithin from until (listing now) = (from ≤ℤ now) × (now <ℤ until)
IsWithin from until (checking context now) = (from ≤ℤ now) × (now <ℤ until)
IsWithin from until (beginning context now fresh token) = (from ≤ℤ now) × (now <ℤ until)
IsWithin from until (checking_read context id now) = (from ≤ℤ now) × (now <ℤ until)
IsWithin from until (cancelling workspace run now) = (from ≤ℤ now) × (now <ℤ until)
IsWithin from until _ = Unit

register-fences :
    (host : Host) (request : GrantRequest) (status : ConnectorStatus) (now : ℤ) (fresh : String)
    (s : Grants)
    → (register host request status now fresh s).0.cancelled_runs
      ≡ (expire host now s).cancelled_runs
unfolding register
register-fences host request status now fresh s = ground arith

finish-fences :
    (connection id : String) (s : Grants)
    → (finish connection id s).cancelled_runs ≡ s.cancelled_runs
unfolding finish
finish-fences connection id s = ground arith

revoke_connection-fences :
    (connection : String) (s : Grants)
    → (revoke_connection connection s).cancelled_runs ≡ s.cancelled_runs
unfolding revoke_connection
revoke_connection-fences connection s = ground arith

-- A fenced run is refused.
refuses_fenced :
    (host : Host) (context : RuntimeReadContext) (from now : ℤ) (fresh : String) (token : Token)
    (t : Grants)
    → IsFencedUntil context.workspace_id context.run_id
        (later from max_grant_ms)
        (expire host now t).cancelled_runs
    → ((check host context now t).1 ≢ ok tt)
      × (is_ok (begin host context now fresh token t).1 ≡ false)
unfolding begin check
refuses_fenced host context from now fresh token t h =
    let u = expire host now t in
    let never : decide host context now u ≢ ok tt = λ accept.
      let open_ =
        IsUnfenced→is_fenced context u.cancelled_runs
          (decide→Authorized host context now u accept).unfenced in
      let shut =
        Memᴰ→any (same_run context.workspace_id context.run_id) u.cancelled_runs h.fence h.listed
          h.own in
      cc in
    (
      never,
      elim (done-cases (decide host context now u)) [
        | inl accept ↦ absurd (never accept)
        | inr (e, refuse) ↦ rw (refuse, begin)
      ],
    )

module _ (host : Host) (workspace run : String) (from : ℤ) where
  abbrev until : ℤ
  until = later from max_grant_ms

  abbrev Holds : List RunFence → Type 0
  Holds = IsFencedUntil workspace run until

  expire-Holds :
      (now : ℤ) (s : Grants)
      → now <ℤ until
      → Holds s.cancelled_runs
      → Holds (expire host now s).cancelled_runs
  expire-Holds now s early h = rw (expire-fences host now s) (record {
    fence = h.fence;
    listed = Memᴰ→retain _ s.cancelled_runs h.fence h.listed (ground (arith, h.lasting));
    own = h.own;
    lasting = h.lasting;
  })

  fence_run-Holds :
      (w r : String) (now : ℤ) (fences : List RunFence)
      → from ≤ℤ now
      → Holds fences
      → Holds (fence_run w r now fences)
  fence_run-Holds w r now fences since h = elim (Bool-cases (same_run w r h.fence)) [
    | inl again ↦ record {
      fence = record { workspace = w; run = r; until = later now max_grant_ms };
      listed = Memᴰ.head refl;
      own = ground (
        arith,
        h.own,
        eq_iff h.fence.workspace w,
        eq_iff h.fence.run r,
        eq_iff h.fence.workspace workspace,
        eq_iff h.fence.run run,
        eq_iff w workspace,
        eq_iff r run,
      );
      lasting = omega (arith, later_parts from max_grant_ms, later_parts now max_grant_ms);
    }
    | inr other ↦ record {
      fence = h.fence;
      listed = Memᴰ.tail (Memᴰ→retain _ fences h.fence h.listed (rw other));
      own = h.own;
      lasting = h.lasting;
    }
  ]

  cancel_run-Holds :
      (w r : String) (now : ℤ) (s : Grants)
      → (from ≤ℤ now) × (now <ℤ until)
      → Holds s.cancelled_runs
      → Holds (cancel_run host w r now s).0.cancelled_runs
  unfolding cancel_run end_reads
  cancel_run-Holds w r now s (since, early) h =
      let t = expire host now s in
      let k = expire-Holds now s early h in
      elim (done-cases (identity w >> identity r)) [
        | inr (e, refuse) ↦ rw (refuse, cancel_run) h
        | inl accept ↦ elim (Bool-cases (leb max_cancelled_runs (length t.cancelled_runs))) [
          | inl full ↦ rw (accept, cancel_run, full) (rw (revoke_all-fences _ t) k)
          | inr room ↦
              rw (accept, cancel_run, room) (fence_run-Holds w r now t.cancelled_runs since k)
        ]
      ]

  begin-fences :
      (context : RuntimeReadContext) (now : ℤ) (fresh : String) (token : Token) (s : Grants)
      → (begin host context now fresh token s).0.cancelled_runs ≡ (expire host now s).cancelled_runs
  unfolding begin
  begin-fences context now fresh token s = ground arith

  apply-Holds :
      (op : Operation) (s : Grants)
      → IsWithin from until op
      → Holds s.cancelled_runs
      → Holds (apply host op s).cancelled_runs
  unfolding apply register list_grants check check_read finish revoke revoke_connection end_reads
  apply-Holds (registering request status now fresh) s (since, early) h =
      rw (register-fences host request status now fresh s) (expire-Holds now s early h)
  apply-Holds (listing now) s (since, early) h = expire-Holds now s early h
  apply-Holds (checking context now) s (since, early) h = expire-Holds now s early h
  apply-Holds (beginning context now fresh token) s (since, early) h =
      rw (begin-fences context now fresh token s) (expire-Holds now s early h)
  apply-Holds (checking_read context id now) s (since, early) h = expire-Holds now s early h
  apply-Holds (finishing connection id) s w h = rw (finish-fences connection id s) h
  apply-Holds (revoking id) s w h = h
  apply-Holds (disconnecting connection) s w h = rw (revoke_connection-fences connection s) h
  apply-Holds (cancelling w r now) s at h = cancel_run-Holds w r now s at h

  apply_all-Holds :
      (ops : List Operation) (s : Grants)
      → All (IsWithin from until) ops
      → Holds s.cancelled_runs
      → Holds (apply_all host ops s).cancelled_runs
  unfolding apply_all
  apply_all-Holds [] s w h = h
  apply_all-Holds (op ∷ ops) s (w, ws) h =
      apply_all-Holds ops (apply host op s) ws (apply-Holds op s w h)

  -- What a successful cancellation leaves.
  cancel_run_fences :
      (s : Grants)
      → (cancel_run host workspace run from s).1 ≡ ok tt
      → Holds (cancel_run host workspace run from s).0.cancelled_runs
  unfolding cancel_run end_reads
  cancel_run_fences s h = elim (done-cases (identity workspace >> identity run)) [
    | inr (e, refuse) ↦ absurd (let bad = rw (refuse, cancel_run) at h in cc)
    | inl accept ↦
        elim (Bool-cases (leb max_cancelled_runs (length (expire host from s).cancelled_runs))) [
          | inl full ↦ absurd (let bad = rw (accept, cancel_run, full) at h in cc)
          | inr room ↦
              rw (accept, cancel_run, room)
                (record {
                  fence = record { workspace = workspace; run = run; until = until };
                  listed = Memᴰ.head refl;
                  own = ground (arith, eq_iff workspace workspace, eq_iff run run);
                  lasting = omega arith;
                })
        ]
  ]

-- When `cancel_run` has succeeded, and whatever operations follow at instants within the hour from
-- it, no read of the run is accepted within that hour: neither `check` nor `begin` succeeds.
pub cancelled_stays_refused :
    (host : Host) (context : RuntimeReadContext) (ops : List Operation) (s : Grants) (from now : ℤ)
    (fresh : String) (token : Token)
    → (cancel_run host context.workspace_id context.run_id from s).1 ≡ ok tt
    → All (IsWithin from (later from max_grant_ms)) ops
    → now <ℤ later from max_grant_ms
    → let u = apply_all host ops (cancel_run host context.workspace_id context.run_id from s).0 in
      ((check host context now u).1 ≢ ok tt)
      × (is_ok (begin host context now fresh token u).1 ≡ false)
cancelled_stays_refused host context ops s from now fresh token done within early =
    let t = (cancel_run host context.workspace_id context.run_id from s).0 in
    let u = apply_all host ops t in
    let kept =
      apply_all-Holds host context.workspace_id context.run_id from ops t within
        (cancel_run_fences host context.workspace_id context.run_id from s done) in
    refuses_fenced host context from now fresh token u
      (expire-Holds host context.workspace_id context.run_id from now u early kept)
