-- ===== src/Connectors/Grants/Access.antt =====
-- Who may read: `check` of src-tauri/src/connectors/grants.rs against a description without tests.
use desktop_ai_dashboard.Prelude.{
  ℤ, ◌≤ℤ◌, ◌<ℤ◌, later, String, true, false, some, List, [], ◌∷◌, Memᴰ, All, ◌≡◌, refl, ◌↔◌, ok,
  >>=-eq-ok, >>-eq-ok, reject_if-eq-ok, ok_or-eq-ok, arith, eq_iff, contains, contains→Memᴰ,
  Memᴰ→contains, any, string_eq, ◌==◌,
}
use desktop_ai_dashboard.Prelude.Maps.{get}
use desktop_ai_dashboard.Host.{Host}
use desktop_ai_dashboard.Connectors.Grants.Types.{
  operation_eq, category, ConnectorGrant, RuntimeReadContext, RunFence, Grants, max_read_ms,
}
use desktop_ai_dashboard.Connectors.Grants.Requests.{identity, validate_id, timestamp}
use desktop_ai_dashboard.Connectors.Grants.Table.{refused, decide, check, expire, is_fenced}

-- What a grant allows a read to be, at an instant.
pub record Covers (grant : ConnectorGrant) (context : RuntimeReadContext) (expires now : ℤ)
    : Type 0 where
  pub generation : context.generation ≡ grant.generation
  pub workspace : grant.scope.workspace_id ≡ context.workspace_id
  pub device : grant.scope.device_id ≡ context.device_id
  pub connection : grant.scope.connection_id ≡ context.connection_id
  pub runtime_origin : grant.scope.egress.runtime_origin ≡ context.runtime_origin
  pub model_origin : grant.scope.egress.model_origin ≡ context.model_origin
  pub operation : Memᴰ context.operation grant.scope.operations
  pub data_category : Memᴰ (category context.operation) grant.scope.egress.data_categories
  pub account_consent : grant.scope.account_read_consented ≡ true
  pub egress_consent : grant.scope.egress.consented ≡ true
  pub unexpired : now <ℤ expires
  pub short : expires ≤ℤ later now max_read_ms

any_eq-contains : (x : String) (xs : List String) → any (λ c. c == x) xs ≡ contains xs x
any_eq-contains x [] = refl
any_eq-contains x (y ∷ xs) = ground (arith, any_eq-contains x xs)

refused→Covers :
    (context : RuntimeReadContext) (grant : ConnectorGrant) (expires now : ℤ)
    → refused context grant expires now ≡ false
    → Covers grant context expires now
unfolding refused
refused→Covers context grant expires now h = record {
  generation = ground arith;
  workspace = ground (arith, eq_iff grant.scope.workspace_id context.workspace_id);
  device = ground (arith, eq_iff grant.scope.device_id context.device_id);
  connection = ground (arith, eq_iff grant.scope.connection_id context.connection_id);
  runtime_origin = ground (arith, eq_iff grant.scope.egress.runtime_origin context.runtime_origin);
  model_origin = ground (arith, eq_iff grant.scope.egress.model_origin context.model_origin);
  operation = contains→Memᴰ _ _ (ground arith);
  data_category = contains→Memᴰ _ _ (
      ground
        (arith, any_eq-contains (category context.operation) grant.scope.egress.data_categories));
  account_consent = ground arith;
  egress_consent = ground arith;
  unexpired = ground arith;
  short = ground arith;
}

Covers→refused :
    (context : RuntimeReadContext) (grant : ConnectorGrant) (expires now : ℤ)
    → Covers grant context expires now
    → refused context grant expires now ≡ false
unfolding refused
Covers→refused context grant expires now c = ground (
  arith,
  eq_iff grant.scope.workspace_id context.workspace_id,
  eq_iff grant.scope.device_id context.device_id,
  eq_iff grant.scope.connection_id context.connection_id,
  eq_iff grant.scope.egress.runtime_origin context.runtime_origin,
  eq_iff grant.scope.egress.model_origin context.model_origin,
  Memᴰ→contains grant.scope.operations context.operation c.operation,
  any_eq-contains (category context.operation) grant.scope.egress.data_categories,
  Memᴰ→contains grant.scope.egress.data_categories (category context.operation) c.data_category,
)

-- No cancellation of this run is still remembered.
abbrev pub IsUnfenced : RuntimeReadContext → List RunFence → Type 0
IsUnfenced context = All (λ f. (f.workspace ≡ context.workspace_id) → (f.run ≡ context.run_id) → ⊥)

pub is_fenced→IsUnfenced :
    (context : RuntimeReadContext) (fs : List RunFence)
    → is_fenced context.workspace_id context.run_id fs ≡ false
    → IsUnfenced context fs
is_fenced→IsUnfenced context [] h = tt
is_fenced→IsUnfenced context (f ∷ fs) h = (
  λ p q. ground (arith, eq_iff f.workspace context.workspace_id, eq_iff f.run context.run_id),
  is_fenced→IsUnfenced context fs (ground arith),
)

pub IsUnfenced→is_fenced :
    (context : RuntimeReadContext) (fs : List RunFence)
    → IsUnfenced context fs
    → is_fenced context.workspace_id context.run_id fs ≡ false
IsUnfenced→is_fenced context [] h = refl
IsUnfenced→is_fenced context (f ∷ fs) h = ground (
  arith,
  eq_iff f.workspace context.workspace_id,
  eq_iff f.run context.run_id,
  IsUnfenced→is_fenced context fs h.1,
)

module _ (host : Host) where
  -- The whole authority behind a read.
  pub record Authority (context : RuntimeReadContext) (now : ℤ)
      (items : List (String × ConnectorGrant)) (fences : List RunFence) : Type 0 where
    pub named_workspace : identity context.workspace_id ≡ ok tt
    pub named_run : identity context.run_id ≡ ok tt
    pub named_device : identity context.device_id ≡ ok tt
    pub named_connection : validate_id host context.connection_id ≡ ok tt
    pub named_grant : validate_id host context.grant_id ≡ ok tt
    pub expires : ℤ
    pub expires_read : timestamp host context.expires_at ≡ ok expires
    pub grant : ConnectorGrant
    pub held : get context.grant_id items ≡ some grant
    pub covered : Covers grant context expires now
    pub limit : ℤ
    pub limit_read : timestamp host grant.scope.expires_at ≡ ok limit
    pub within : expires ≤ℤ limit
    pub unfenced : IsUnfenced context fences

  abbrev pub Authorized : RuntimeReadContext → ℤ → Grants → Type 0
  Authorized context now s = Authority context now s.items s.cancelled_runs

  pub decide→Authorized :
      (context : RuntimeReadContext) (now : ℤ) (s : Grants)
      → decide host context now s ≡ ok tt
      → Authorized context now s
  unfolding decide
  decide→Authorized context now s h =
      let (p1, h1) = >>-eq-ok _ _ h in
      let (p2, h2) = >>-eq-ok _ _ h1 in
      let (p3, h3) = >>-eq-ok _ _ h2 in
      let (p4, h4) = >>-eq-ok _ _ h3 in
      let (p5, h5) = >>-eq-ok _ _ h4 in
      let (expires, p6, h6) = >>=-eq-ok _ _ h5 in
      let (grant, p7, h7) = >>=-eq-ok _ _ h6 in
      let (p8, h8) = >>-eq-ok _ _ h7 in
      let (limit, p9, h9) = >>=-eq-ok _ _ h8 in
      let last = reject_if-eq-ok _ _ h9 in
      record {
        named_workspace = p1;
        named_run = p2;
        named_device = p3;
        named_connection = p4;
        named_grant = p5;
        expires = expires;
        expires_read = p6;
        grant = grant;
        held = ok_or-eq-ok _ _ p7;
        covered = refused→Covers context grant expires now (reject_if-eq-ok _ _ p8);
        limit = limit;
        limit_read = p9;
        within = ground arith;
        unfenced = is_fenced→IsUnfenced context s.cancelled_runs (ground arith);
      }

  pub Authorized→decide :
      (context : RuntimeReadContext) (now : ℤ) (s : Grants)
      → Authorized context now s
      → decide host context now s ≡ ok tt
  unfolding decide
  Authorized→decide context now s a =
      rw
        (
          a.named_workspace,
          a.named_run,
          a.named_device,
          a.named_connection,
          a.named_grant,
          a.expires_read,
          a.held,
          Covers→refused context a.grant a.expires now a.covered,
          a.limit_read,
        )
        (ground (arith, IsUnfenced→is_fenced context s.cancelled_runs a.unfenced, a.within))

  -- After the sweep of what has expired, `check` accepts exactly the authorized reads: those with
  -- well-formed identifiers, a grant in the table for their workspace, device, connection,
  -- origins, operation and data that is consented to, an expiry that lies ahead by at most two
  -- minutes and is not later than that of the grant, and no fence for their run.
  pub check_iff :
      (context : RuntimeReadContext) (now : ℤ) (s : Grants)
      → ((check host context now s).1 ≡ ok tt) ↔ Authorized context now (expire host now s)
  unfolding check
  check_iff context now s = (
    decide→Authorized context now (expire host now s),
    Authorized→decide context now (expire host now s),
  )
