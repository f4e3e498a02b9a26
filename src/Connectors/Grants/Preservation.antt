-- ===== src/Connectors/Grants/Preservation.antt =====
-- The invariant of the grant table and the operations `register`, `begin` and `cancel_run` of
-- src-tauri/src/connectors/grants.rs.
use desktop_ai_dashboard.Prelude.{
  ℤ, String, false, not, none, some, ◌≡◌, ◌≢◌, ◌⊎◌, inl, inr, string_eq, nat_eq, ◌<◌, contains,
  length, leb, arith, eq_iff, Bool-cases, Option-cases, done-cases, length-retain-le, ok, >>-eq-ok,
  reject_if, reject_if-eq-ok, ◌>>◌, any-retain-false,
}
use desktop_ai_dashboard.Prelude.Maps.{get, insert, get-insert, Unique-insert, length-insert-le}
use desktop_ai_dashboard.Host.{Host}
use desktop_ai_dashboard.Connectors.Status.{ConnectorStatus}
use desktop_ai_dashboard.Connectors.Grants.Types.{
  GrantRequest, RuntimeReadContext, Token, ActiveRead, Grants, max_grants, max_cancelled_runs,
  too_many_grants,
}
use desktop_ai_dashboard.Connectors.Grants.Requests.{identity, validate}
use desktop_ai_dashboard.Connectors.Grants.Table.{
  same_run, expire, admit, register, grant_of, decide, begin, cancel_run, in_run, fence_run,
}
use desktop_ai_dashboard.Connectors.Grants.Access.{
  Authorized, decide→Authorized, IsUnfenced→is_fenced,
}
use desktop_ai_dashboard.Connectors.Grants.Invariant.{
  IsTidy, IsBacked, IsSound, end_reads-IsSound, revoke_all-IsSound, expire-IsSound,
}

module _ (host : Host) (context : RuntimeReadContext) (fresh : String) (token : Token)
    (t : Grants) where
  abbrev new_read : ActiveRead
  new_read = record { id = fresh; context = context; cancel = token }

  -- A read of the longer table is the new one or an old one of another connection.
  listed_read :
      (c : String) (r : ActiveRead)
      → get c (insert context.connection_id new_read t.active) ≡ some r
      → ((c ≡ context.connection_id) × (r ≡ new_read)) ⊎ (get c t.active ≡ some r)
  listed_read c r h =
      ground (
        arith,
        get-insert context.connection_id c new_read t.active,
        eq_iff context.connection_id c,
      )

  add_read :
      (now : ℤ)
      → IsSound t
      → Authorized host context now t
      → get context.connection_id t.active ≡ none
      → contains t.cancelled token ≡ false
      → ((c : String) (r : ActiveRead) → get c t.active ≡ some r → r.cancel ≢ token)
      → IsSound (record t { active = insert context.connection_id new_read t.active })
  add_read now w a idle unused own = record {
    tidy = record {
      items_unique = w.tidy.items_unique;
      active_unique = Unique-insert context.connection_id new_read t.active w.tidy.active_unique;
      keyed =
          λ c r h. elim (listed_read c r h) [ inl (at, eq) ↦ cc | inr old ↦ w.tidy.keyed c r old ];
      live = λ c r h. elim (listed_read c r h) [
        | inl (at, eq) ↦ rw eq unused
        | inr old ↦ w.tidy.live c r old
      ];
      own_token = λ c d r q h k e. elim (listed_read c r h) [
        | inl (at, eq) ↦ elim (listed_read d q k) [
          | inl (at', eq') ↦ cc
          | inr old' ↦ absurd (own d q old' (cc))
        ]
        | inr old ↦ elim (listed_read d q k) [
          | inl (at', eq') ↦ absurd (own c r old (cc))
          | inr old' ↦ w.tidy.own_token c d r q old old' e
        ]
      ];
      few_grants = w.tidy.few_grants;
      few_fences = w.tidy.few_fences;
    };
    backed = λ c r h. elim (listed_read c r h) [
      | inl (at, eq) ↦ rw eq (record {
        grant = a.grant;
        held = a.held;
        connection = a.covered.connection;
        unfenced = IsUnfenced→is_fenced context t.cancelled_runs a.unfenced;
      })
      | inr old ↦ w.backed c r old
    ];
  }

fence-IsTidy :
    (workspace run : String) (now : ℤ) (t : Grants)
    → IsTidy t
    → length t.cancelled_runs < max_cancelled_runs
    → IsTidy (record t { cancelled_runs = fence_run workspace run now t.cancelled_runs })
fence-IsTidy workspace run now t w room = record {
  items_unique = w.items_unique;
  active_unique = w.active_unique;
  keyed = w.keyed;
  live = w.live;
  own_token = w.own_token;
  few_grants = w.few_grants;
  few_fences =
      omega (arith, length-retain-le (λ f. not (same_run workspace run f)) t.cancelled_runs, room);
}

-- A read of another run is as unfenced as before.
fence-IsBacked :
    (workspace run : String) (now : ℤ) (t : Grants) (r : ActiveRead)
    → IsBacked t.items t.cancelled_runs r
    → in_run workspace run r ≡ false
    → IsBacked t.items (fence_run workspace run now t.cancelled_runs) r
fence-IsBacked workspace run now t r b other = record {
  grant = b.grant;
  held = b.held;
  connection = b.connection;
  unfenced = ground (
    arith,
    other,
    eq_iff workspace r.context.workspace_id,
    eq_iff r.context.workspace_id workspace,
    eq_iff run r.context.run_id,
    eq_iff r.context.run_id run,
    any-retain-false (same_run r.context.workspace_id r.context.run_id)
        (λ f. not (same_run workspace run f)) t.cancelled_runs b.unfenced,
  );
}

module _ (host : Host) where
  admit-room :
      (request : GrantRequest) (status : ConnectorStatus) (now : ℤ) (s : Grants)
      → admit host request status now s ≡ ok tt
      → length s.items < max_grants
  unfolding admit
  admit-room request status now s h =
      let (_, h1) = >>-eq-ok (validate host request now) _ h in
      let full = leb max_grants (length s.items) in
      let (_, h2) = >>-eq-ok _ (reject_if full too_many_grants) h1 in
      let room : full ≡ false = reject_if-eq-ok full too_many_grants h2 in ground arith

  -- A new grant, under an identifier that no grant has, touches no read.
  pub register-IsSound :
      (request : GrantRequest) (status : ConnectorStatus) (now : ℤ) (fresh : String) (s : Grants)
      → get fresh (expire host now s).items ≡ none
      → IsSound s
      → IsSound (register host request status now fresh s).0
  unfolding register
  register-IsSound request status now fresh s new v =
      let t = expire host now s in
      let w : IsSound t = expire-IsSound host now s v in
      elim (done-cases (admit host request status now t)) [
        | inr (e, refuse) ↦ rw (refuse, register) w
        | inl accept ↦
            rw (accept, register)
              (record {
                tidy = record {
                  items_unique = Unique-insert fresh _ t.items w.tidy.items_unique;
                  active_unique = w.tidy.active_unique;
                  keyed = w.tidy.keyed;
                  live = w.tidy.live;
                  own_token = w.tidy.own_token;
                  few_grants = omega (
                    arith,
                    length-insert-le fresh (grant_of fresh request) t.items,
                    admit-room request status now t accept,
                  );
                  few_fences = w.tidy.few_fences;
                };
                backed = λ c r h.
                    let b = w.backed c r h in
                    record {
                      grant = b.grant;
                      held = ground (
                        arith,
                        b.held,
                        new,
                        get-insert fresh r.context.grant_id (grant_of fresh request) t.items,
                        eq_iff fresh r.context.grant_id,
                      );
                      connection = b.connection;
                      unfenced = b.unfenced;
                    };
              })
      ]

  -- A new read, under a token that is neither cancelled nor in use, rests on the grant that
  -- `check` found.
  pub begin-IsSound :
      (context : RuntimeReadContext) (now : ℤ) (fresh : String) (token : Token) (s : Grants)
      → contains (expire host now s).cancelled token ≡ false
      → ((c : String) (r : ActiveRead)
          → get c (expire host now s).active ≡ some r
          → r.cancel ≢ token)
      → IsSound s
      → IsSound (begin host context now fresh token s).0
  unfolding begin
  begin-IsSound context now fresh token s unused own v =
      let t = expire host now s in
      let w : IsSound t = expire-IsSound host now s v in
      elim (done-cases (decide host context now t)) [
        | inr (e, refuse) ↦ rw (refuse, begin) w
        | inl accept ↦ elim (Option-cases (get context.connection_id t.active)) [
          | inr (busy, found) ↦ rw (accept, begin, found) w
          | inl idle ↦
              rw (accept, begin, idle)
                (add_read host context fresh token t now w
                  (decide→Authorized host context now t accept) idle unused own)
        ]
      ]

  -- The run is fenced and its reads end, or the grants of the whole workspace go.
  pub cancel_run-IsSound :
      (workspace run : String) (now : ℤ) (s : Grants)
      → IsSound s
      → IsSound (cancel_run host workspace run now s).0
  unfolding cancel_run
  cancel_run-IsSound workspace run now s v =
      let t = expire host now s in
      let w : IsSound t = expire-IsSound host now s v in
      elim (done-cases (identity workspace >> identity run)) [
        | inr (e, refuse) ↦ rw (refuse, cancel_run) v
        | inl accept ↦ elim (Bool-cases (leb max_cancelled_runs (length t.cancelled_runs))) [
          | inl full ↦ rw (accept, cancel_run, full) (revoke_all-IsSound _ t w)
          | inr room ↦
              rw (accept, cancel_run, room)
                (end_reads-IsSound (in_run workspace run) _
                  (fence-IsTidy workspace run now t w.tidy (ground arith))
                  λ c r found kept. fence-IsBacked workspace run now t r (w.backed c r found) kept)
        ]
      ]
