-- ===== src/Connectors/Renewed.antt =====
-- How a refresh of src-tauri/src/connectors.rs ends: `commit_refresh_checked`.
use desktop_ai_dashboard.Prelude.{
  storage, Bool-cases, ℤ, String, true, Option, none, some, List, [], ◌∷◌, ◌≡◌, ◌⊎◌, inl, inr, ◌==◌,
  nat_eq, string_eq, contains, arith, eq_iff, eq_refl, All, AppError, AppResult, ok, err,
  AppResult-cases, done-cases, Option-cases, if◌then◌else◌,
}
use desktop_ai_dashboard.Host.{Host}
use desktop_ai_dashboard.Connectors.Status.{ConnectorStatus}
use desktop_ai_dashboard.Connectors.Grants.Types.{RuntimeReadContext}
use desktop_ai_dashboard.Connectors.Lifecycle.{check_refresh, stale_error, bump}
use desktop_ai_dashboard.Connectors.Store.{ConnectionRow, get, stage, upsert, mark_disconnected}
use desktop_ai_dashboard.Connectors.Store.Refinement.{
  upserting, staging, disconnecting, apply, get-apply,
}
use desktop_ai_dashboard.Connectors.Scopes.{granted_scopes}
use desktop_ai_dashboard.Connectors.Confirmed.{granted_scopes-IsPermitted}
use desktop_ai_dashboard.Connectors.Commands.{
  Statements, ConnectorSecrets, ConnectorsCore, TokenJson, TokenResponse, or_default, revoke_grants,
}
use desktop_ai_dashboard.Connectors.Commits.{
  Moment, payload, same_scopes, check_lease, write_renewed, publish_refresh, refuse_refresh, renew,
  commit_refresh_checked,
}
use desktop_ai_dashboard.Connectors.Published.{rollback_staged-hides}

get-id :
    (id : String) (rows : List ConnectionRow) (s : ConnectorStatus)
    → get id rows ≡ some s
    → s.id ≡ id
unfolding get
get-id id [] s h = cc
get-id id (r ∷ rows) s h = ground (arith, eq_iff r.status.id id, get-id id rows s)

module _ {S : Type 0} (host : Host) (json : TokenJson) (secrets : ConnectorSecrets S)
    (statements : Statements) where
  check_lease-rows :
      (id : String) (read : Option (RuntimeReadContext × String)) (wall : ℤ) (c : ConnectorsCore S)
      → ((check_lease host json secrets id read wall c).1.rows ≡ c.rows)
        × ((check_lease host json secrets id read wall c).1.life.refreshes ≡ c.life.refreshes)
        × ((check_lease host json secrets id read wall c).1.secrets ≡ c.secrets)
  check_lease-rows id none wall c = ground arith
  check_lease-rows id (some (context, lease)) wall c = ground arith

  write_renewed-cases :
      (secret : String) (status : ConnectorStatus) (c : ConnectorsCore S)
      → let done = write_renewed host json secrets statements secret status c in
        ((done.0 ≡ ok tt) × (done.1.rows ≡ upsert status c.rows))
        ⊎ ((e : AppError) × (done.0 ≡ err e) × (done.1.rows ≡ c.rows))
  unfolding write_renewed
  write_renewed-cases secret status c =
      elim (done-cases (secrets.write status.id secret c.secrets).0) [
        | inl p ↦ elim (Bool-cases statements.upserts) [
          | inl u ↦ inl (ground arith, ground arith)
          | inr u ↦ inr (storage, ground arith, ground arith)
        ]
        | inr (e, p) ↦ inr (e, ground arith, ground arith)
      ]

  -- There is an error, and the connection is shown as before or not at all; no other is touched.
  abbrev Fails :
      String → String → ConnectorsCore S → AppResult ConnectorStatus × ConnectorsCore S → Type 0
  Fails id k c done =
      (e : AppError) × (done.0 ≡ err e)
      × ((get k done.1.rows ≡ get k c.rows)
          ⊎ (get k done.1.rows ≡ (if id == k then none else get k c.rows)))

  -- Either the status is shown, or it fails; no other connection is touched.
  publish_refresh-cases :
      (id generation k : String) (status : ConnectorStatus) (secret : String) (c : ConnectorsCore S)
      → let done = publish_refresh host json secrets statements id generation status secret c in
        ((done.0 ≡ ok status)
          × (get k done.1.rows ≡ (if status.id == k then some status else get k c.rows)))
        ⊎ Fails status.id k c done
  unfolding publish_refresh apply
  publish_refresh-cases id generation k status secret c =
      let hidden = get-apply (staging status) k c.rows in
      let own = get-apply (staging status) status.id c.rows in
      let shown = get-apply (upserting status) k (stage status c.rows) in
      let staged : ConnectorsCore S = record c { rows = stage status c.rows } in
      let written = write_renewed host json secrets statements secret status staged in
      elim (Bool-cases statements.stages) [
        | inr g ↦ inr (storage, ground arith, inl (ground arith))
        | inl g ↦ elim (write_renewed-cases secret status staged) [
          | inl (p, rows) ↦ inl (ground arith, ground arith)
          | inr (e, p, rows) ↦
              let failed : ConnectorsCore S = record (written.1) {
                life =
                    revoke_grants status.id
                      (record (written.1.life) { revision = bump written.1.life.revision });
              } in
              let absent : get status.id failed.rows ≡ none = ground (arith, eq_refl status.id) in
              let (same, f, error) =
                rollback_staged-hides secrets statements {A = Unit {0}} status.id k e failed
                  absent in
              inr (f, ground arith, inr (ground arith))
        ]
      ]

  refuse_refresh-cases :
      (id k : String) (e : AppError) (c : ConnectorsCore S)
      → let done = refuse_refresh host json secrets statements id e c in Fails id k c done
  unfolding refuse_refresh apply
  refuse_refresh-cases id k e c =
      let gone = get-apply (disconnecting id) k c.rows in
      let own = get-apply (disconnecting id) id c.rows in
      let marked : ConnectorsCore S = record {
        life = record (revoke_grants id c.life) {
          revision = bump (revoke_grants id c.life).revision;
        };
        rows = (mark_disconnected id c.rows).0;
        secrets = c.secrets;
      } in
      let absent : get id marked.rows ≡ none = ground (arith, eq_refl id) in
      let (same, f, error) =
        rollback_staged-hides secrets statements {A = ConnectorStatus} id k e marked absent in
      elim (Bool-cases statements.marks) [
        | inl m ↦ (f, ground arith, inr (ground arith))
        | inr m ↦ (storage, ground arith, inl (ground arith))
      ]

  abbrev Ends :
      String
      → String
      → ConnectorStatus
      → ConnectorsCore S
      → AppResult ConnectorStatus × ConnectorsCore S
      → Type 0
  Ends id k old c done =
      Fails id k c done
      ⊎ ((new : ConnectorStatus) × (done.0 ≡ ok new)
          × (new.id ≡ id)
          × All (λ s. contains old.scopes s ≡ true) new.scopes
          × (get k done.1.rows ≡ (if id == k then some new else get k c.rows)))

  renew-Ends :
      (id generation previous : String) (tokens : TokenResponse) (moment : Moment) (k : String)
      (old : ConnectorStatus) (c : ConnectorsCore S)
      → old.id ≡ id
      → Ends id k old c
          (renew host json secrets statements id generation previous tokens moment old c)
  unfolding renew
  renew-Ends id generation previous tokens moment k old c own =
      elim (AppResult-cases (granted_scopes tokens.scope old.scopes true)) [
        | inr (e, p) ↦
            let (f, q, r) = refuse_refresh-cases old.id k e c in inl (f, ground arith, ground arith)
        | inl (scopes, p) ↦
            let expires = moment.after_seconds (or_default tokens.expires_in 3600) in
            let new : ConnectorStatus = record old { scopes = scopes; expires_at = expires } in
            let refresh = some (or_default tokens.refresh_token previous) in
            let revoked : ConnectorsCore S = record c {
              life = if same_scopes old.scopes scopes then c.life else revoke_grants old.id c.life;
            } in
            let inside = (granted_scopes-IsPermitted tokens.scope old.scopes true scopes p).1 in
            elim (publish_refresh-cases id generation k new (payload json tokens refresh expires)
              revoked) [
                | inl (q, r) ↦ inr (new, ground arith, own, inside, ground arith)
                | inr (f, q, r) ↦ inl (f, ground arith, ground arith)
              ]
      ]

  -- The refresh that `commit_refresh_checked` completes. If it fails, every connection but its own
  -- is shown as before, and its own is shown as before or not at all. If it succeeds, its generation
  -- was the current one, the connection was shown, and it is shown with its new scopes, each of
  -- which it had before; every other is shown as before.
  pub commit_refresh_checked_cases :
      (id generation previous : String) (tokens : TokenResponse)
      (read : Option (RuntimeReadContext × String)) (moment : Moment) (k : String)
      (c : ConnectorsCore S)
      → let done =
          commit_refresh_checked host json secrets statements id generation previous tokens read
            moment c in
        ((e : AppError) × (done.0 ≡ err e)
          × ((get k done.1.rows ≡ get k c.rows)
              ⊎ (get k done.1.rows ≡ (if id == k then none else get k c.rows))))
        ⊎ ((old : ConnectorStatus) × (new : ConnectorStatus) × (done.0 ≡ ok new)
            × (check_refresh id generation c.life ≡ ok tt)
            × (get id c.rows ≡ some old)
            × (new.id ≡ id)
            × All (λ s. contains old.scopes s ≡ true) new.scopes
            × (get k done.1.rows ≡ (if id == k then some new else get k c.rows)))
  unfolding commit_refresh_checked check_refresh
  commit_refresh_checked_cases id generation previous tokens read moment k c =
      let leased = check_lease host json secrets id read moment.wall c in
      let (rows, refreshes, kept) = check_lease-rows id read moment.wall c in
      elim (done-cases leased.0) [
        | inr (e, p) ↦ inl (e, ground arith, inl (ground arith))
        | inl p ↦ elim (done-cases (check_refresh id generation leased.1.life)) [
          | inr (e, q) ↦ inl (e, ground arith, inl (ground arith))
          | inl q ↦ elim (Option-cases (get id leased.1.rows)) [
            | inl g ↦ inl (stale_error, ground arith, inl (ground arith))
            | inr (old, g) ↦
                let found : get id c.rows ≡ some old = ground arith in
                let own = get-id id c.rows old found in
                elim (renew-Ends id generation previous tokens moment k old leased.1 own) [
                  | inl (e, a, b) ↦ inl (e, ground arith, ground arith)
                  | inr (new, a, same, inside, b) ↦
                      inr (old, new, ground arith, ground arith, found, same, inside, ground arith)
                ]
          ]
        ]
      ]
