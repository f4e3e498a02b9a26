-- ===== src/Connectors/Grants/Reads.antt =====
-- The life of one read in src-tauri/src/connectors/grants.rs: `begin`, `check_read`, `finish` and
-- the end of it by `cancel_run`.
use desktop_ai_dashboard.Prelude.{
  ℤ, String, true, false, none, some, ◌≡◌, ◌≢◌, refl, ◌==◌, string_eq, nat_eq, contains,
  if◌then◌else◌, arith, eq_iff, Bool-cases, Option-cases, inl, inr, ok, done-cases, ◌>>◌, leb,
  length, any-retain-false, ltb_ℤ,
}
use desktop_ai_dashboard.Prelude.{◌&&◌}
use desktop_ai_dashboard.Prelude.Maps.{get, insert, Unique, get-remove, get-insert}
use desktop_ai_dashboard.Host.{Host}
use desktop_ai_dashboard.Connectors.Grants.Types.{
  RuntimeReadContext, Token, ActiveRead, Grants, max_cancelled_runs,
}
use desktop_ai_dashboard.Connectors.Grants.Requests.{identity}
use desktop_ai_dashboard.Connectors.Grants.Table.{
  finish, expire, lapsed, begin, decide, check_read, cancel_run, in_run, same_run, fence_run,
}
use desktop_ai_dashboard.Connectors.Grants.Access.{
  Authorized, decide→Authorized, Authorized→decide, IsUnfenced→is_fenced, is_fenced→IsUnfenced,
}
use desktop_ai_dashboard.Connectors.Grants.Invariant.{IsSound, expire-IsSound}
use desktop_ai_dashboard.Connectors.Grants.Preservation.{begin-IsSound}
use desktop_ai_dashboard.Connectors.Grants.Expiry.{
  expire-items_iff, expire-keeps_read, expire-fences,
}
use desktop_ai_dashboard.Connectors.Grants.Revocation.{end_reads_ends}

module _ (host : Host) (context : RuntimeReadContext) (now : ℤ) where
  grant_current :
      (t : Grants) (a : Authorized host context now t)
      → lapsed host now a.grant.scope.expires_at ≡ false
  unfolding lapsed
  grant_current t a = rw (a.limit_read, lapsed) (ground (arith, a.within, a.covered.unexpired))

  read_current :
      (t : Grants) (a : Authorized host context now t) → lapsed host now context.expires_at ≡ false
  unfolding lapsed
  read_current t a = rw (a.expires_read, lapsed) (ground (arith, a.covered.unexpired))

  -- The authority found by one sweep is found by a second one at the same instant.
  Authorized-expire :
      (t : Grants)
      → Unique t.items
      → Authorized host context now t
      → Authorized host context now (expire host now t)
  Authorized-expire t u a = record {
    named_workspace = a.named_workspace;
    named_run = a.named_run;
    named_device = a.named_device;
    named_connection = a.named_connection;
    named_grant = a.named_grant;
    expires = a.expires;
    expires_read = a.expires_read;
    grant = a.grant;
    held = (expire-items_iff host now t context.grant_id a.grant u).1 (a.held, grant_current t a);
    covered = a.covered;
    limit = a.limit;
    limit_read = a.limit_read;
    within = a.within;
    unfenced = is_fenced→IsUnfenced context _ (
        rw (expire-fences host now t) (
          any-retain-false (same_run context.workspace_id context.run_id) (λ f. ltb_ℤ now f.until)
            t.cancelled_runs (IsUnfenced→is_fenced context t.cancelled_runs a.unfenced)));
  }

  module _ (fresh : String) (token : Token) (s : Grants) where
    begin_inv :
        (begin host context now fresh token s).1 ≡ ok (fresh, token)
        → (decide host context now (expire host now s) ≡ ok tt)
          × (get context.connection_id (expire host now s).active ≡ none)
    unfolding begin
    begin_inv h = elim (done-cases (decide host context now (expire host now s))) [
      | inr (e, refuse) ↦ absurd (let bad = rw (refuse, begin) at h in cc)
      | inl accept ↦ elim (Option-cases (get context.connection_id (expire host now s).active)) [
        | inr (busy, found) ↦ absurd (let bad = rw (accept, begin, found) at h in cc)
        | inl idle ↦ (accept, idle)
      ]
    ]

    begin_table :
        decide host context now (expire host now s) ≡ ok tt
        → get context.connection_id (expire host now s).active ≡ none
        → (begin host context now fresh token s).0 ≡ record (expire host now s) {
          active =
              insert context.connection_id
                (record { id = fresh; context = context; cancel = token })
                (expire host now s).active;
        }
    unfolding begin
    begin_table accept idle = rw (accept, begin, idle)

-- The read of a sound table that has it current passes `check_read`.
check_read_accepts :
    (host : Host) (context : RuntimeReadContext) (now : ℤ) (r : ActiveRead) (t : Grants)
    → IsSound t
    → r.context ≡ context
    → Authorized host context now t
    → get context.connection_id t.active ≡ some r
    → (check_read host context r.id now t).1 ≡ ok tt
unfolding check_read
check_read_accepts host context now r t v same a found =
    let u = expire host now t in
    let w : IsSound u = expire-IsSound host now t v in
    let accept =
      Authorized→decide host context now u
        (Authorized-expire host context now t v.tidy.items_unique a) in
    let kept : get context.connection_id u.active ≡ some r =
      expire-keeps_read host now t context.connection_id r a.grant v.tidy.items_unique found
        (rw same a.held) (grant_current host context now t a)
        (rw same (read_current host context now t a)) in
    let live = w.tidy.live context.connection_id r kept in
    rw (accept, kept) (ground (arith, eq_iff r.id r.id))

-- In a sound table and with a token that is neither cancelled nor that of an active read, a read
-- that `begin` has accepted passes `check_read` under its own identifier, at the same instant.
pub begin-check_read :
    (host : Host) (context : RuntimeReadContext) (now : ℤ) (fresh : String) (token : Token)
    (s : Grants)
    → IsSound s
    → contains (expire host now s).cancelled token ≡ false
    → ((c : String) (r : ActiveRead) → get c (expire host now s).active ≡ some r → r.cancel ≢ token)
    → (begin host context now fresh token s).1 ≡ ok (fresh, token)
    → (check_read host context fresh now (begin host context now fresh token s).0).1 ≡ ok tt
begin-check_read host context now fresh token s v unused own h =
    let (accept, idle) = begin_inv host context now fresh token s h in
    let table = begin_table host context now fresh token s accept idle in
    let sound = begin-IsSound host context now fresh token s unused own v in
    let read : ActiveRead = record { id = fresh; context = context; cancel = token } in
    rw table (
      check_read_accepts host context now read _ (rw table at sound) refl
        (decide→Authorized host context now (expire host now s) accept)
        (ground (
          arith,
          get-insert context.connection_id context.connection_id read (expire host now s).active,
          eq_iff context.connection_id context.connection_id,
        )))

-- In a sound table, a cancellation of a run that succeeds takes every read of the run that the
-- sweep has left out of the table, and cancels the token that its reader holds.
pub cancel_run_ends_reads :
    (host : Host) (workspace run : String) (now : ℤ) (s : Grants) (c : String) (r : ActiveRead)
    → IsSound s
    → (cancel_run host workspace run now s).1 ≡ ok tt
    → get c (expire host now s).active ≡ some r
    → r.context.workspace_id ≡ workspace
    → r.context.run_id ≡ run
    → (get c (cancel_run host workspace run now s).0.active ≡ none)
      × (contains (cancel_run host workspace run now s).0.cancelled r.cancel ≡ true)
unfolding cancel_run
cancel_run_ends_reads host workspace run now s c r v done found own own' =
    let t = expire host now s in
    let w : IsSound t = expire-IsSound host now s v in
    elim (done-cases (identity workspace >> identity run)) [
      | inr (e, refuse) ↦ absurd (let bad = rw (refuse, cancel_run) at done in cc)
      | inl accept ↦ elim (Bool-cases (leb max_cancelled_runs (length t.cancelled_runs))) [
        | inl full ↦ absurd (let bad = rw (accept, cancel_run, full) at done in cc)
        | inr room ↦
            rw (accept, cancel_run, room)
              (end_reads_ends (in_run workspace run)
                (record t { cancelled_runs = fence_run workspace run now t.cancelled_runs }) c r
                w.tidy.active_unique found
                (ground
                  (arith, eq_iff r.context.workspace_id workspace, eq_iff r.context.run_id run)))
      ]
    ]

-- `finish` ends a read only under its own identifier: under its own it frees the connection, and
-- under another one nothing. Either way it touches no other connection, no grant and no token.
pub finish_own_read :
    (connection id : String) (s : Grants) (r : ActiveRead)
    → get connection s.active ≡ some r
    → ((c : String)
        → get c (finish connection id s).active
          ≡ (if r.id == id && connection == c then none else get c s.active))
      × ((finish connection id s).items ≡ s.items)
      × ((finish connection id s).cancelled_runs ≡ s.cancelled_runs)
      × ((finish connection id s).cancelled ≡ s.cancelled)
unfolding finish
finish_own_read connection id s r found = (
  λ c. ground (arith, get-remove connection c s.active),
  ground arith,
  ground arith,
  ground arith,
)
