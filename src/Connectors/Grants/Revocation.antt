-- ===== src/Connectors/Grants/Revocation.antt =====
-- Revoked grants: `revoke` and `revoke_connection` of src-tauri/src/connectors/grants.rs, and the
-- operations after them.
use desktop_ai_dashboard.Prelude.{
  ℤ, String, Bool, true, false, not, none, some, List, [], ◌∷◌, map, ◌≡◌, ◌≢◌, ◌==◌, string_eq,
  nat_eq, retain, contains, if◌then◌else◌, arith, eq_iff, Option-cases, inl, inr, Memᴰ→contains,
  Memᴰ→map, Memᴰ→retain, Memᴰ-append_left, All, ok, is_ok, done-cases,
}
use desktop_ai_dashboard.Prelude.Maps.{
  get, remove, Unique, get-remove, get-insert, get-retain-some, get-retain-none, get→Memᴰ,
}
use desktop_ai_dashboard.Host.{Host}
use desktop_ai_dashboard.Connectors.Status.{ConnectorStatus}
use desktop_ai_dashboard.Connectors.Grants.Types.{
  GrantRequest, Token, RuntimeReadContext, ActiveRead, Grants,
}
use desktop_ai_dashboard.Connectors.Grants.Table.{
  end_reads, revoke, revoke_connection, finish, expire, register, grant_of, list_grants, check,
  begin, decide, check_read, cancel_run,
}
use desktop_ai_dashboard.Connectors.Grants.Access.{decide→Authorized}
use desktop_ai_dashboard.Connectors.Grants.Expiry.{revoke_all-items, expire-items_none}
use desktop_ai_dashboard.Connectors.Grants.Operations.{
  Operation, registering, listing, checking, beginning, checking_read, finishing, revoking,
  disconnecting, cancelling, apply, apply_all,
}

-- A sweep takes each read that it ends out of the table and cancels its token.
pub end_reads_ends :
    (ends : ActiveRead → Bool) (s : Grants) (c : String) (r : ActiveRead)
    → Unique s.active
    → get c s.active ≡ some r
    → ends r ≡ true
    → (get c (end_reads ends s).active ≡ none)
      × (contains (end_reads ends s).cancelled r.cancel ≡ true)
unfolding end_reads
end_reads_ends ends s c r u found gone = (
  elim (Option-cases (get c (retain (λ e. not (ends e.1)) s.active))) [
    | inl out ↦ out
    | inr (q, kept) ↦
        let (same, stays) = get-retain-some (λ e. not (ends e.1)) c s.active u kept in ground arith
  ],
  Memᴰ→contains (end_reads ends s).cancelled r.cancel (
      Memᴰ-append_left _ s.cancelled r.cancel (
        Memᴰ→map (λ (e : String × ActiveRead). e.1.cancel) _ (c, r)
          (Memᴰ→retain (λ e. ends e.1) s.active (c, r) (get→Memᴰ c s.active found) gone))),
)

-- In a table with at most one active read for a connection, revoking a grant ends every read under
-- it at once: the read leaves the table and the token that its reader holds is cancelled. The
-- grant is gone, and every other grant stays.
pub revoke_ends_reads :
    (id : String) (s : Grants) (c : String) (r : ActiveRead)
    → Unique s.active
    → get c s.active ≡ some r
    → r.context.grant_id ≡ id
    → (get c (revoke id s).active ≡ none)
      × (contains (revoke id s).cancelled r.cancel ≡ true)
      × ((k : String) → get k (revoke id s).items ≡ (if id == k then none else get k s.items))
unfolding revoke
revoke_ends_reads id s c r u found own =
    let (out, hit) =
      end_reads_ends (λ q. q.context.grant_id == id) (record s { items = remove id s.items }) c r u
        found (ground (arith, eq_iff r.context.grant_id id)) in
    (out, hit, λ k. unfold end_reads in get-remove id k s.items)

-- Without its grant a read is refused.
refuses :
    (host : Host) (context : RuntimeReadContext) (now : ℤ) (fresh : String) (token : Token)
    (t : Grants)
    → get context.grant_id (expire host now t).items ≡ none
    → ((check host context now t).1 ≢ ok tt)
      × (is_ok (begin host context now fresh token t).1 ≡ false)
unfolding begin check
refuses host context now fresh token t gone =
    let never : decide host context now (expire host now t) ≢ ok tt =
      λ h. let held = (decide→Authorized host context now _ h).held in cc in
    (
      never,
      elim (done-cases (decide host context now (expire host now t))) [
        | inl accept ↦ absurd (never accept)
        | inr (e, refuse) ↦ rw (refuse, begin)
      ],
    )

-- The operation does not hand this identifier out to a new grant.
abbrev pub SparesId : String → Operation → Type 0
SparesId id (registering request status now fresh) = fresh ≢ id
SparesId id _ = Unit

module _ (host : Host) (id : String) where
  register-items_none :
      (request : GrantRequest) (status : ConnectorStatus) (now : ℤ) (fresh : String) (s : Grants)
      → fresh ≢ id
      → get id s.items ≡ none
      → get id (register host request status now fresh s).0.items ≡ none
  unfolding register
  register-items_none request status now fresh s f h = ground (
    arith,
    expire-items_none host now s id h,
    get-insert fresh id (grant_of fresh request) (expire host now s).items,
    eq_iff fresh id,
  )

  begin-items_none :
      (context : RuntimeReadContext) (now : ℤ) (fresh : String) (token : Token) (s : Grants)
      → get id s.items ≡ none
      → get id (begin host context now fresh token s).0.items ≡ none
  unfolding begin
  begin-items_none context now fresh token s h = ground (arith, expire-items_none host now s id h)

  revoke_connection-items_none :
      (connection : String) (s : Grants)
      → get id s.items ≡ none
      → get id (revoke_connection connection s).items ≡ none
  unfolding revoke_connection
  revoke_connection-items_none connection s h =
      ground
        (arith, get-retain-none (λ e. not (e.1.scope.connection_id == connection)) id s.items h)

  cancel_run-items_none :
      (workspace run : String) (now : ℤ) (s : Grants)
      → get id s.items ≡ none
      → get id (cancel_run host workspace run now s).0.items ≡ none
  unfolding cancel_run end_reads
  cancel_run-items_none workspace run now s h =
      let t = expire host now s in
      ground (
        arith,
        h,
        expire-items_none host now s id h,
        revoke_all-items
            (map (λ e. e.0) (retain (λ e. e.1.scope.workspace_id == workspace) t.items)) t id,
      )

  apply-keeps_revoked :
      (op : Operation) (s : Grants)
      → SparesId id op
      → get id s.items ≡ none
      → get id (apply host op s).items ≡ none
  unfolding apply list_grants check check_read finish revoke end_reads
  apply-keeps_revoked (registering request status now fresh) s f h =
      register-items_none request status now fresh s f h
  apply-keeps_revoked (listing now) s f h = expire-items_none host now s id h
  apply-keeps_revoked (checking context now) s f h = expire-items_none host now s id h
  apply-keeps_revoked (beginning context now fresh token) s f h =
      begin-items_none context now fresh token s h
  apply-keeps_revoked (checking_read context k now) s f h = expire-items_none host now s id h
  apply-keeps_revoked (finishing connection k) s f h = ground arith
  apply-keeps_revoked (revoking k) s f h = ground (arith, get-remove k id s.items)
  apply-keeps_revoked (disconnecting connection) s f h = revoke_connection-items_none connection s h
  apply-keeps_revoked (cancelling workspace run now) s f h =
      cancel_run-items_none workspace run now s h

  apply_all-keeps_revoked :
      (ops : List Operation) (s : Grants)
      → All (SparesId id) ops
      → get id s.items ≡ none
      → get id (apply_all host ops s).items ≡ none
  unfolding apply_all
  apply_all-keeps_revoked [] s f h = h
  apply_all-keeps_revoked (op ∷ ops) s (f, fs) h =
      apply_all-keeps_revoked ops (apply host op s) fs (apply-keeps_revoked op s f h)

-- Once a grant is revoked, and whatever operations follow that do not hand its identifier out
-- again, no read under it is accepted: neither `check` nor `begin` succeeds.
pub revoked_stays_refused :
    (host : Host) (context : RuntimeReadContext) (ops : List Operation) (s : Grants) (now : ℤ)
    (fresh : String) (token : Token)
    → All (SparesId context.grant_id) ops
    → let t = apply_all host ops (revoke context.grant_id s) in
      ((check host context now t).1 ≢ ok tt)
      × (is_ok (begin host context now fresh token t).1 ≡ false)
unfolding revoke end_reads
revoked_stays_refused host context ops s now fresh token spares =
    let t = apply_all host ops (revoke context.grant_id s) in
    let gone : get context.grant_id t.items ≡ none =
      apply_all-keeps_revoked host context.grant_id ops (revoke context.grant_id s) spares (
        ground (
          arith,
          get-remove context.grant_id context.grant_id s.items,
          eq_iff context.grant_id context.grant_id,
        )) in
    refuses host context now fresh token t (expire-items_none host now t context.grant_id gone)
