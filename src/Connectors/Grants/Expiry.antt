-- ===== src/Connectors/Grants/Expiry.antt =====
-- What `expire` of src-tauri/src/connectors/grants.rs removes, and what it keeps.
use desktop_ai_dashboard.Prelude.{
  ℤ, ltb_ℤ, String, false, not, none, some, List, [], ◌∷◌, map, Memᴰ, ◌≡◌, refl, sym, ap, ◌↔◌, ◌==◌,
  string_eq, retain, contains, if◌then◌else◌, arith, eq_iff, Bool-cases, Option-cases, ◌∙◌, inl,
  inr, contains→Memᴰ, Memᴰ→contains, Memᴰ-map, Memᴰ-retain, Memᴰ→map, Memᴰ→retain,
}
use desktop_ai_dashboard.Prelude.Maps.{
  get, Unique, get-remove, get-retain, get-retain-some, Memᴰ→get, get→Memᴰ, Unique-retain,
}
use desktop_ai_dashboard.Host.{Host}
use desktop_ai_dashboard.Connectors.Grants.Types.{ConnectorGrant, ActiveRead, Grants}
use desktop_ai_dashboard.Connectors.Grants.Table.{end_reads, revoke, revoke_all, lapsed, expire}

pub revoke_all-items :
    (ids : List String) (s : Grants) (id : String)
    → get id (revoke_all ids s).items ≡ (if contains ids id then none else get id s.items)
unfolding revoke_all revoke end_reads
revoke_all-items [] s id = refl
revoke_all-items (k ∷ ids) s id =
    ground (arith, revoke_all-items ids (revoke k s) id, get-remove k id s.items)

pub revoke_all-fences :
    (ids : List String) (s : Grants) → (revoke_all ids s).cancelled_runs ≡ s.cancelled_runs
unfolding revoke_all revoke end_reads
revoke_all-fences [] s = refl
revoke_all-fences (k ∷ ids) s = revoke_all-fences ids (revoke k s)

-- A read whose grant is not revoked goes on.
pub revoke_all-keeps_read :
    (ids : List String) (s : Grants) (c : String) (r : ActiveRead)
    → get c s.active ≡ some r
    → contains ids r.context.grant_id ≡ false
    → get c (revoke_all ids s).active ≡ some r
unfolding revoke_all revoke end_reads
revoke_all-keeps_read [] s c r h k = h
revoke_all-keeps_read (id ∷ ids) s c r h k =
    revoke_all-keeps_read ids (revoke id s) c r
      (get-retain (λ e. not (e.1.context.grant_id == id)) c s.active h
        (ground (arith, k, eq_iff id r.context.grant_id, eq_iff r.context.grant_id id)))
      (ground arith)

pub revoke_all-active-Unique :
    (ids : List String) (s : Grants) → Unique s.active → Unique (revoke_all ids s).active
unfolding revoke_all revoke end_reads
revoke_all-active-Unique [] s u = u
revoke_all-active-Unique (id ∷ ids) s u =
    revoke_all-active-Unique ids (revoke id s) (Unique-retain _ s.active u)

module _ (host : Host) (now : ℤ) (s : Grants) where
  abbrev expired_ids : List String
  expired_ids = map (λ e. e.0) (retain (λ e. lapsed host now e.1.scope.expires_at) s.items)

  expired_iff :
      (id : String) (g : ConnectorGrant)
      → Unique s.items
      → get id s.items ≡ some g
      → contains expired_ids id ≡ lapsed host now g.scope.expires_at
  expired_iff id g u h = elim (Bool-cases (lapsed host now g.scope.expires_at)) [
    | inl late ↦
        Memᴰ→contains expired_ids id (
          Memᴰ→map (λ (e : String × ConnectorGrant). e.0) _ (id, g)
            (Memᴰ→retain (λ e. lapsed host now e.1.scope.expires_at) s.items (id, g)
              (get→Memᴰ id s.items h) late))
        ∙ sym late
    | inr early ↦ elim (Bool-cases (contains expired_ids id)) [
      | inr out ↦ out ∙ sym early
      | inl listed ↦ absurd (clash early (contains→Memᴰ expired_ids id listed))
    ]
  ]
    where
      clash : lapsed host now g.scope.expires_at ≡ false → Memᴰ id expired_ids → ⊥
      clash early m =
          let (e, at, eq) = Memᴰ-map (λ (e : String × ConnectorGrant). e.0) _ id m in
          let (at', late) = Memᴰ-retain _ s.items e at in
          let found : get id s.items ≡ some e.1 =
            ap (λ k. get k s.items) eq ∙ Memᴰ→get e.0 s.items u at' in
          let same : some g ≡ some e.1 = sym h ∙ found in cc

  -- In a table with one entry for each grant identifier, the sweep keeps exactly the grants that
  -- have not lapsed.
  pub expire-items_iff :
      (id : String) (g : ConnectorGrant)
      → Unique s.items
      → (get id (expire host now s).items ≡ some g)
        ↔ ((get id s.items ≡ some g) × (lapsed host now g.scope.expires_at ≡ false))
  unfolding expire end_reads
  expire-items_iff id g u = (
    λ h. elim (Option-cases (get id s.items)) [
      | inl gone ↦ ground (arith, revoke_all-items expired_ids s id)
      | inr (f, held) ↦ ground (arith, revoke_all-items expired_ids s id, expired_iff id f u held)
    ],
    λ (held, early). ground (arith, revoke_all-items expired_ids s id, expired_iff id g u held),
  )

  pub expire-items_none :
      (id : String) → get id s.items ≡ none → get id (expire host now s).items ≡ none
  unfolding expire end_reads
  expire-items_none id h = ground (arith, revoke_all-items expired_ids s id)

  pub expire-fences :
      (expire host now s).cancelled_runs ≡ retain (λ f. ltb_ℤ now f.until) s.cancelled_runs
  unfolding expire end_reads
  expire-fences = rw (revoke_all-fences expired_ids s)

  -- A read goes on while neither it nor its grant has lapsed.
  pub expire-keeps_read :
      (c : String) (r : ActiveRead) (g : ConnectorGrant)
      → Unique s.items
      → get c s.active ≡ some r
      → get r.context.grant_id s.items ≡ some g
      → lapsed host now g.scope.expires_at ≡ false
      → lapsed host now r.context.expires_at ≡ false
      → get c (expire host now s).active ≡ some r
  unfolding expire end_reads
  expire-keeps_read c r g u found held early short =
      get-retain (λ e. not (lapsed host now e.1.context.expires_at)) c
        (revoke_all expired_ids s).active
        (revoke_all-keeps_read expired_ids s c r found
          (expired_iff r.context.grant_id g u held ∙ early))
        (rw short)

  -- No active read outlasts its own expiry.
  pub expire-active :
      (c : String) (r : ActiveRead)
      → Unique s.active
      → get c (expire host now s).active ≡ some r
      → lapsed host now r.context.expires_at ≡ false
  unfolding expire end_reads
  expire-active c r u h =
      let (_, kept) =
        get-retain-some (λ e. not (lapsed host now e.1.context.expires_at)) c
          (revoke_all expired_ids s).active (revoke_all-active-Unique expired_ids s u) h in
      ground arith
