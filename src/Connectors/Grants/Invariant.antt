-- ===== src/Connectors/Grants/Invariant.antt =====
-- The invariant of the grant table of src-tauri/src/connectors/grants.rs, and the sweeps
-- (`active.retain`, `revoke`, `expire`).
use desktop_ai_dashboard.Prelude.{
  ℤ, ltb_ℤ, String, Bool, true, false, not, some, List, [], ◌∷◌, ◌++◌, map, Memᴰ, ◌≡◌, sym, ap, ◌∙◌,
  inl, inr, string_eq, nat_eq, ◌≤◌, retain, contains, length, arith, eq_iff, Bool-cases,
  contains→Memᴰ, Memᴰ→contains, Memᴰ-append, Memᴰ-map, Memᴰ-retain, any-retain-false,
  length-retain-le,
}
use desktop_ai_dashboard.Prelude.Maps.{
  get, Unique, get-remove, get-retain-some, Unique-retain, Unique-remove, Memᴰ→get,
  length-remove-le,
}
use desktop_ai_dashboard.Host.{Host}
use desktop_ai_dashboard.Connectors.Grants.Types.{
  ConnectorGrant, Token, ActiveRead, RunFence, Grants, max_grants, max_cancelled_runs,
}
use desktop_ai_dashboard.Connectors.Grants.Table.{end_reads, revoke, revoke_all, is_fenced, expire}

-- The shape of the table: one entry for each key, entries under their own identifiers, bounded
-- tables, and for each active read a token of its own that is not cancelled.
pub record IsTidy (s : Grants) : Type 0 where
  pub items_unique : Unique s.items
  pub active_unique : Unique s.active
  pub keyed : (c : String) (r : ActiveRead) → get c s.active ≡ some r → r.context.connection_id ≡ c
  pub live :
      (c : String) (r : ActiveRead)
      → get c s.active ≡ some r
      → contains s.cancelled r.cancel ≡ false
  pub own_token :
      (c d : String) (r q : ActiveRead)
      → get c s.active ≡ some r
      → get d s.active ≡ some q
      → r.cancel ≡ q.cancel
      → c ≡ d
  pub few_grants : length s.items ≤ max_grants
  pub few_fences : length s.cancelled_runs ≤ max_cancelled_runs

-- What an active read rests on: a grant for its connection, and no cancellation of its run.
pub record IsBacked (items : List (String × ConnectorGrant)) (fences : List RunFence)
    (r : ActiveRead) : Type 0 where
  pub grant : ConnectorGrant
  pub held : get r.context.grant_id items ≡ some grant
  pub connection : grant.scope.connection_id ≡ r.context.connection_id
  pub unfenced : is_fenced r.context.workspace_id r.context.run_id fences ≡ false

pub record IsSound (s : Grants) : Type 0 where
  pub tidy : IsTidy s
  pub backed :
      (c : String) (r : ActiveRead) → get c s.active ≡ some r → IsBacked s.items s.cancelled_runs r

module _ (ends : ActiveRead → Bool) (s : Grants) (t : IsTidy s) where
  kept_read :
      (c : String) (r : ActiveRead)
      → get c (end_reads ends s).active ≡ some r
      → (get c s.active ≡ some r) × (ends r ≡ false)
  unfolding end_reads
  kept_read c r h =
      let (found, kept) = get-retain-some (λ e. not (ends e.1)) c s.active t.active_unique h in
      (found, ground arith)

  -- A token that the sweep cancels belongs to a read that ends.
  cancelled_read :
      (k : Token)
      → Memᴰ k (map (λ e. e.1.cancel) (retain (λ e. ends e.1) s.active))
      → (c : String) × (r : ActiveRead) × (get c s.active ≡ some r)
        × (ends r ≡ true)
        × (k ≡ r.cancel)
  cancelled_read k m =
      let (e, at, eq) = Memᴰ-map (λ (e : String × ActiveRead). e.1.cancel) _ k m in
      let (at', yes') = Memᴰ-retain (λ (e : String × ActiveRead). ends e.1) s.active e at in
      (e.0, e.1, Memᴰ→get e.0 s.active t.active_unique at', yes', eq)

  still_live :
      (c : String) (r : ActiveRead)
      → get c (end_reads ends s).active ≡ some r
      → contains (end_reads ends s).cancelled r.cancel ≡ false
  unfolding end_reads
  still_live c r h = elim (Bool-cases (contains (end_reads ends s).cancelled r.cancel)) [
    | inr fine ↦ fine
    | inl hit ↦ absurd (clash (contains→Memᴰ (end_reads ends s).cancelled r.cancel hit))
  ]
    where
      apart : Memᴰ r.cancel (map (λ e. e.1.cancel) (retain (λ e. ends e.1) s.active)) → ⊥
      apart new =
          let (d, q, found, gone, eq) = cancelled_read r.cancel new in
          let (here, kept) = kept_read c r h in
          let same : c ≡ d = t.own_token c d r q here found eq in
          let both : some r ≡ some q = sym here ∙ ap (λ k. get k s.active) same ∙ found in cc

      clash :
          Memᴰ r.cancel (map (λ e. e.1.cancel) (retain (λ e. ends e.1) s.active) ++ s.cancelled) → ⊥
      clash m =
          elim (Memᴰ-append (map (λ e. e.1.cancel) (retain (λ e. ends e.1) s.active)) s.cancelled
            r.cancel m) [
              | inl new ↦ apart new
              | inr old ↦
                  let was = t.live c r (kept_read c r h).0 in
                  let now = Memᴰ→contains s.cancelled r.cancel old in cc
            ]

  pub end_reads-IsTidy : IsTidy (end_reads ends s)
  unfolding end_reads
  end_reads-IsTidy = record {
    items_unique = t.items_unique;
    active_unique = Unique-retain _ s.active t.active_unique;
    keyed = λ c r h. t.keyed c r (kept_read c r h).0;
    live = still_live;
    own_token = λ c d r q h k e. t.own_token c d r q (kept_read c r h).0 (kept_read d q k).0 e;
    few_grants = t.few_grants;
    few_fences = t.few_fences;
  }

  -- A sweep that ends every read with nothing behind it leaves a sound table.
  pub end_reads-IsSound :
      ((c : String) (r : ActiveRead)
        → get c s.active ≡ some r
        → ends r ≡ false
        → IsBacked s.items s.cancelled_runs r)
      → IsSound (end_reads ends s)
  unfolding end_reads
  end_reads-IsSound backed = record {
    tidy = end_reads-IsTidy;
    backed = λ c r h. let (found, kept) = kept_read c r h in backed c r found kept;
  }

pub revoke-IsSound : (id : String) (s : Grants) → IsSound s → IsSound (revoke id s)
unfolding revoke
revoke-IsSound id s v =
    end_reads-IsSound _ _
      (record {
        items_unique = Unique-remove id s.items v.tidy.items_unique;
        active_unique = v.tidy.active_unique;
        keyed = v.tidy.keyed;
        live = v.tidy.live;
        own_token = v.tidy.own_token;
        few_grants = omega (arith, length-remove-le id s.items, v.tidy.few_grants);
        few_fences = v.tidy.few_fences;
      })
      λ c r found kept.
        let b = v.backed c r found in
        record {
          grant = b.grant;
          held = ground (
            arith,
            b.held,
            get-remove id r.context.grant_id s.items,
            eq_iff r.context.grant_id id,
            eq_iff id r.context.grant_id,
          );
          connection = b.connection;
          unfenced = b.unfenced;
        }

pub revoke_all-IsSound : (ids : List String) (s : Grants) → IsSound s → IsSound (revoke_all ids s)
unfolding revoke_all
revoke_all-IsSound [] s v = v
revoke_all-IsSound (id ∷ ids) s v = revoke_all-IsSound ids (revoke id s) (revoke-IsSound id s v)

-- Forgetting some fences.
drop_fences-IsSound :
    (keep : RunFence → Bool) (s : Grants)
    → IsSound s
    → IsSound (record s { cancelled_runs = retain keep s.cancelled_runs })
drop_fences-IsSound keep s v = record {
  tidy = record {
    items_unique = v.tidy.items_unique;
    active_unique = v.tidy.active_unique;
    keyed = v.tidy.keyed;
    live = v.tidy.live;
    own_token = v.tidy.own_token;
    few_grants = v.tidy.few_grants;
    few_fences = omega (arith, length-retain-le keep s.cancelled_runs, v.tidy.few_fences);
  };
  backed = λ c r found.
      let b = v.backed c r found in
      record {
        grant = b.grant;
        held = b.held;
        connection = b.connection;
        unfenced = any-retain-false _ keep s.cancelled_runs b.unfenced;
      };
}

pub expire-IsSound : (host : Host) (now : ℤ) (s : Grants) → IsSound s → IsSound (expire host now s)
unfolding expire
expire-IsSound host now s v =
    let swept = revoke_all-IsSound _ s v in
    let u = drop_fences-IsSound (λ f. ltb_ℤ now f.until) _ swept in
    end_reads-IsSound _ _ u.tidy (λ c r found kept. u.backed c r found)
