-- ===== src/Connectors/Grants/Table.antt =====
-- The grant table and its operations: src-tauri/src/connectors/grants.rs, `impl Grants`.
-- A method on `&mut self` returns the new table; what it changed before an error stays changed.
use Prim.Native.String.{compare}
use text.Mathlib.Text.{is_le}
use desktop_ai_dashboard.Prelude.{
  ℤ, pos, String, Bool, not, ◌||◌, ◌&&◌, none, some, List, [], ◌∷◌, ◌++◌, map, ◌==◌, string_eq,
  nat_eq, leb, leb_ℤ, ltb_ℤ, later, any, contains, length, retain, is_some_and, AppResult, ok, err,
  ◌>>=◌, ◌>>◌, reject_if, ok_or, if◌then◌else◌, AppError,
}
use desktop_ai_dashboard.Prelude.Maps.{get, contains_key, insert, remove}
use desktop_ai_dashboard.Host.{Host}
use desktop_ai_dashboard.Connectors.Status.{ConnectorStatus}
use desktop_ai_dashboard.Connectors.Grants.Types.{
  operation_eq, category, scope_allowed, GrantRequest, ConnectorGrant, RuntimeReadContext, Token,
  ActiveRead, RunFence, Grants, denied, too_many_grants, cancellations_full, read_pending,
  max_grant_ms, max_read_ms, max_grants, max_cancelled_runs,
}
use desktop_ai_dashboard.Connectors.Grants.Requests.{identity, validate_id, timestamp, validate}

-- `connector_stale` of lifecycle.rs.
abbrev pub stale_read : AppError
stale_read = record {
  code = "connector_stale";
  message = "This connector action is no longer active.";
}

-- `active.retain(|_, read| if ends(read) { read.cancel.cancel(); false } else { true })`.
unfoldable pub end_reads : (ActiveRead → Bool) → Grants → Grants
end_reads ends s = record s {
  active = retain (λ e. not (ends e.1)) s.active;
  cancelled = map (λ e. e.1.cancel) (retain (λ e. ends e.1) s.active) ++ s.cancelled;
}

unfoldable pub revoke : String → Grants → Grants
revoke id s = end_reads (λ r. r.context.grant_id == id) (record s { items = remove id s.items })

unfoldable pub revoke_all : List String → Grants → Grants
revoke_all [] s = s
revoke_all (id ∷ ids) s = revoke_all ids (revoke id s)

-- The read of a connection, `active.get(connection)`, is taken out and its token cancelled.
unfoldable pub revoke_connection : String → Grants → Grants
revoke_connection connection s =
    let items = retain (λ e. not (e.1.scope.connection_id == connection)) s.items in
    elim (get connection s.active) [
      | none ↦ record s { items = items }
      | some read ↦ record s {
        items = items;
        active = remove connection s.active;
        cancelled = read.cancel ∷ s.cancelled;
      }
    ]

unfoldable pub finish : String → String → Grants → Grants
finish connection id s =
    if is_some_and (get connection s.active) (λ read. read.id == id)
    then record s { active = remove connection s.active }
    else s

abbrev pub same_run : String → String → RunFence → Bool
same_run workspace run f = f.workspace == workspace && f.run == run

abbrev pub is_fenced : String → String → List RunFence → Bool
is_fenced workspace run fences = any (same_run workspace run) fences

-- `grants.sort_by(|a, b| a.grant_id.cmp(&b.grant_id))`, a stable sort.
unfoldable pub place : ConnectorGrant → List ConnectorGrant → List ConnectorGrant
place g [] = g ∷ []
place g (h ∷ hs) = if is_le (compare g.grant_id h.grant_id) then g ∷ h ∷ hs else h ∷ place g hs

unfoldable pub sort_grants : List ConnectorGrant → List ConnectorGrant
sort_grants [] = []
sort_grants (g ∷ gs) = place g (sort_grants gs)

abbrev pub grant_of : String → GrantRequest → ConnectorGrant
grant_of id request = record { grant_id = id; generation = 1; scope = request }

-- The disjunction of `check` up to the expiry of the grant.
unfoldable pub refused : RuntimeReadContext → ConnectorGrant → ℤ → ℤ → Bool
refused context grant expires now =
    let scope = grant.scope in
    not (context.generation == grant.generation)
    || not (scope.workspace_id == context.workspace_id)
    || not (scope.device_id == context.device_id)
    || not (scope.connection_id == context.connection_id)
    || not (scope.egress.runtime_origin == context.runtime_origin)
    || not (scope.egress.model_origin == context.model_origin)
    || not (contains scope.operations context.operation)
    || not (any (λ c. c == category context.operation) scope.egress.data_categories)
    || not scope.account_read_consented
    || not scope.egress.consented
    || leb_ℤ expires now
    || ltb_ℤ (later now max_read_ms) expires

-- `r.id == id && !r.cancel.is_cancelled()`.
abbrev pub is_live : String → List Token → ActiveRead → Bool
is_live id cancelled read = read.id == id && not (contains cancelled read.cancel)

abbrev pub in_run : String → String → ActiveRead → Bool
in_run workspace run r = r.context.workspace_id == workspace && r.context.run_id == run

-- `cancelled_runs.insert((workspace, run), now + MAX_GRANT_SECONDS * 1000)`.
abbrev pub fence_run : String → String → ℤ → List RunFence → List RunFence
fence_run workspace run now fences =
    record { workspace = workspace; run = run; until = later now max_grant_ms }
    ∷ retain (λ f. not (same_run workspace run f)) fences

module _ (host : Host) where
  -- `timestamp(..).unwrap_or(0) <= now`.
  unfoldable pub lapsed : ℤ → String → Bool
  lapsed now expires_at = elim (timestamp host expires_at) [
    | ok t ↦ leb_ℤ t now
    | err e ↦ leb_ℤ (pos 0) now
  ]

  unfoldable pub expire : ℤ → Grants → Grants
  expire now s =
      let expired = map (λ e. e.0) (retain (λ e. lapsed now e.1.scope.expires_at) s.items) in
      let t = revoke_all expired s in
      end_reads (λ r. lapsed now r.context.expires_at)
        (record t { cancelled_runs = retain (λ f. ltb_ℤ now f.until) t.cancelled_runs })

  -- What `register` decides after `expire`.
  unfoldable pub admit : GrantRequest → ConnectorStatus → ℤ → Grants → AppResult (Unit {0})
  admit request status now s = do
    validate host request now
    reject_if
        (not (status.id == request.connection_id)
          || not (status.provider == "google")
          || any (λ op. not (scope_allowed op status.scopes)) request.operations)
        denied
    reject_if (leb max_grants (length s.items)) too_many_grants

  -- `fresh` is the identifier that `Uuid::new_v4` yields.
  unfoldable pub register :
      GrantRequest → ConnectorStatus → ℤ → String → Grants → Grants × AppResult ConnectorGrant
  register request status now fresh s =
      let t = expire now s in
      elim (admit request status now t) [
        | err e ↦ (t, err e)
        | ok _ ↦ (
          record t { items = insert fresh (grant_of fresh request) t.items },
          ok (grant_of fresh request),
        )
      ]

  unfoldable pub list_grants : ℤ → Grants → Grants × List ConnectorGrant
  list_grants now s = let t = expire now s in (t, sort_grants (map (λ e. e.1) t.items))

  -- What `check` decides after `expire`.
  unfoldable pub decide : RuntimeReadContext → ℤ → Grants → AppResult (Unit {0})
  decide context now s = do
    identity context.workspace_id
    identity context.run_id
    identity context.device_id
    validate_id host context.connection_id
    validate_id host context.grant_id
    expires ← timestamp host context.expires_at
    grant ← ok_or (get context.grant_id s.items) denied
    reject_if (refused context grant expires now) denied
    limit ← timestamp host grant.scope.expires_at
    reject_if
        (ltb_ℤ limit expires || is_fenced context.workspace_id context.run_id s.cancelled_runs)
        denied

  unfoldable pub check : RuntimeReadContext → ℤ → Grants → Grants × AppResult (Unit {0})
  check context now s = let t = expire now s in (t, decide context now t)

  -- `fresh` is a new read identifier, and `token` a new cancellation token.
  unfoldable pub begin :
      RuntimeReadContext → ℤ → String → Token → Grants → Grants × AppResult (String × Token)
  begin context now fresh token s =
      let t = expire now s in
      elim (decide context now t) [
        | err e ↦ (t, err e)
        | ok _ ↦ if contains_key context.connection_id t.active then (t, err read_pending) else (
          record t {
            active =
                insert context.connection_id
                  (record { id = fresh; context = context; cancel = token }) t.active;
          },
          ok (fresh, token),
        )
      ]

  unfoldable pub check_read :
      RuntimeReadContext → String → ℤ → Grants → Grants × AppResult (Unit {0})
  check_read context id now s =
      let t = expire now s in
      (
        t,
        (do
          decide context now t
          reject_if
              (not (is_some_and (get context.connection_id t.active) (is_live id t.cancelled)))
              stale_read),
      )

  unfoldable pub cancel_run : String → String → ℤ → Grants → Grants × AppResult (Unit {0})
  cancel_run workspace run now s = elim (identity workspace >> identity run) [
    | err e ↦ (s, err e)
    | ok _ ↦
        let t = expire now s in
        if leb max_cancelled_runs (length t.cancelled_runs)
        then (
          revoke_all (map (λ e. e.0) (retain (λ e. e.1.scope.workspace_id == workspace) t.items)) t,
          err cancellations_full,
        )
        else (
          end_reads (in_run workspace run)
              (record t { cancelled_runs = fence_run workspace run now t.cancelled_runs }),
          ok tt,
        )
  ]
