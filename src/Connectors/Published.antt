-- ===== src/Connectors/Published.antt =====
-- Which connections the commands of src-tauri/src/connectors.rs show, however they end.
use desktop_ai_dashboard.Connectors.Grants.Types.{ActiveRead, Token}
use desktop_ai_dashboard.Connectors.Grants.Table.{revoke_connection}
use desktop_ai_dashboard.Prelude.Maps
use desktop_ai_dashboard.Prelude.{
  storage, Option, Option-cases, Bool-cases, not, [], ◌∷◌, refl, any, retain, String, true, false,
  none, some, List, ◌≡◌, ◌⊎◌, inl, inr, ◌==◌, nat_eq, string_eq, contains, arith, eq_iff, eq_refl,
  All, AppError, ok, err, AppResult-cases, done-cases, if◌then◌else◌,
}
use desktop_ai_dashboard.Host.{Host}
use desktop_ai_dashboard.Connectors.Status.{ConnectorStatus}
use desktop_ai_dashboard.Connectors.Lifecycle as Life
use desktop_ai_dashboard.Connectors.Lifecycle.{Lifecycle, check, committed, check_refresh}
use desktop_ai_dashboard.Connectors.Store.{
  ConnectionRow, has_id, delete, get, stage, upsert, mark_disconnected,
}
use desktop_ai_dashboard.Connectors.Store.Refinement.{
  upserting, staging, disconnecting, deleting, apply, get-apply,
}
use desktop_ai_dashboard.Connectors.Commands.{
  ConnectorSecrets, ConnectorsCore, rollback_staged, disconnect_impl, TokenJson, TokenResponse,
  cleanup_error, Statements, disconnect_error, incomplete_error, credential_error, not_found,
}
use desktop_ai_dashboard.Connectors.Scopes.{granted_scopes}
use desktop_ai_dashboard.Connectors.Confirmed.{granted_scopes-IsPermitted}
use desktop_ai_dashboard.Connectors.Commits.{Moment, new_status, payload, publish_new, commit_new}

abbrev pub IsCancelled : Option ActiveRead → List Token → Type 0
IsCancelled none tokens = Unit
IsCancelled (some read) tokens = contains tokens read.cancel ≡ true

-- The connection has no refresh, read or grant left, and the token of its read is cancelled; the
-- grants of other connections, the refresh and read of any other one, and the sign-in are as before.
abbrev pub HasEnded : String → String → Lifecycle → Lifecycle → Type 0
HasEnded id k before after =
    (Maps.get k after.refreshes ≡ (if id == k then none else Maps.get k before.refreshes))
    × (after.grants.items ≡ retain (λ e. not (e.1.scope.connection_id == id)) before.grants.items)
    × (Maps.get k after.grants.active ≡ (if id == k then none else Maps.get k before.grants.active))
    × IsCancelled (Maps.get id before.grants.active) after.grants.cancelled
    × (after.attempt ≡ before.attempt)
    × (after.pending ≡ before.pending)

disconnect-HasEnded : (id k : String) (s : Lifecycle) → HasEnded id k s (Life.disconnect id s)
unfolding Life.disconnect revoke_connection
disconnect-HasEnded id k s = elim (Option-cases (Maps.get id s.grants.active)) [
  | inl idle ↦ ground (arith, Maps.get-remove id k s.refreshes, eq_iff id k)
  | inr (r, active) ↦
      ground
        (arith, Maps.get-remove id k s.refreshes, Maps.get-remove id k s.grants.active, eq_iff id k)
]

none_left : (id : String) (rows : List ConnectionRow) → any (has_id id) (delete id rows).0 ≡ false
unfolding delete
none_left id [] = refl
none_left id (r ∷ rows) = ground (arith, none_left id rows)

module _ {S : Type 0} (secrets : ConnectorSecrets S) (statements : Statements) where
  disconnect_impl-life :
      (id : String) (c : ConnectorsCore S)
      → (disconnect_impl secrets statements id c).1.life ≡ Life.disconnect id c.life
  unfolding disconnect_impl
  disconnect_impl-life id c = elim (Bool-cases statements.marks) [
    | inr m ↦ ground arith
    | inl m ↦ elim (done-cases (secrets.remove id c.secrets).0) [
      | inr (e, p) ↦ ground arith
      | inl p ↦ elim (Bool-cases statements.deletes) [ inr d ↦ ground arith | inl d ↦ ground arith ]
    ]
  ]

  disconnect_impl-HasEnded :
      (id k : String) (c : ConnectorsCore S)
      → HasEnded id k c.life (disconnect_impl secrets statements id c).1.life
  disconnect_impl-HasEnded id k c = rw (disconnect_impl-life id c) (disconnect-HasEnded id k c.life)

  -- Disconnecting, however it ends, has ended what went on for the connection: its refresh is
  -- forgotten, its grants are revoked, its read is over with its token cancelled, and the sign-in and
  -- other refreshes are as before. If the row cannot be marked, this is the error and the connections
  -- are shown as before. Otherwise, whatever fails later, the connection is hidden and no other; and
  -- if nothing fails, its row is gone.
  pub disconnect_impl-hides :
      (id k : String) (c : ConnectorsCore S)
      → let done = disconnect_impl secrets statements id c in
        HasEnded id k c.life done.1.life
        × (((done.0 ≡ err disconnect_error) × (statements.marks ≡ false) × (done.1.rows ≡ c.rows))
            ⊎ ((statements.marks ≡ true)
                × (get k done.1.rows ≡ (if id == k then none else get k c.rows))
                × (((e : AppError) × (done.0 ≡ err e))
                    ⊎ ((done.0 ≡ ok tt) × (any (has_id id) done.1.rows ≡ false)))))
  unfolding disconnect_impl apply
  disconnect_impl-hides id k c =
      let marked = get-apply (disconnecting id) k c.rows in
      let gone = get-apply (deleting id) k (mark_disconnected id c.rows).0 in
      let erased = none_left id (mark_disconnected id c.rows).0 in
      let ended = disconnect_impl-HasEnded id k c in
      elim (Bool-cases statements.marks) [
        | inr m ↦ (ended, inl (ground arith, m, ground arith))
        | inl m ↦ elim (done-cases (secrets.remove id c.secrets).0) [
          | inr (e, p) ↦ elim (Bool-cases (mark_disconnected id c.rows).1) [
            | inl f ↦ (ended, inr (m, ground arith, inl (cleanup_error, ground arith)))
            | inr f ↦ (ended, inr (m, ground arith, inl (credential_error, ground arith)))
          ]
          | inl p ↦ elim (Bool-cases statements.deletes) [
            | inr d ↦ (ended, inr (m, ground arith, inl (incomplete_error, ground arith)))
            | inl d ↦ elim (Bool-cases (mark_disconnected id c.rows).1) [
              | inl f ↦ (ended, inr (m, ground arith, inr (ground arith, ground arith)))
              | inr f ↦ (ended, inr (m, ground arith, inl (not_found, ground arith)))
            ]
          ]
        ]
      ]

  pub rollback_staged-hides {ℓ} :
      {A : Type ℓ} (id k : String) (e : AppError) (c : ConnectorsCore S)
      → get id c.rows ≡ none
      → (get k (rollback_staged secrets {A = A} statements id e c).1.rows ≡ get k c.rows)
        × (f : AppError) × ((rollback_staged secrets {A = A} statements id e c).0 ≡ err f)
  unfolding rollback_staged apply
  rollback_staged-hides id k e c h =
      let gone = get-apply (deleting id) k c.rows in
      elim (done-cases (secrets.remove id c.secrets).0) [
        | inr (f, p) ↦ (ground arith, cleanup_error, ground arith)
        | inl p ↦ elim (Bool-cases statements.deletes) [
          | inl d ↦ (ground (arith, eq_iff id k), e, ground arith)
          | inr d ↦ (ground arith, incomplete_error, ground arith)
        ]
      ]

module _ {S : Type 0} (host : Host) (json : TokenJson) (secrets : ConnectorSecrets S)
    (statements : Statements) where
  publish_new-cases :
      (attempt : String) (moment : Moment) (secret : String) (status : ConnectorStatus)
      (c : ConnectorsCore S)
      → let done = publish_new host json secrets statements attempt moment secret status c in
        ((done.0 ≡ ok tt)
          × ((check attempt moment.later c.life).1 ≡ ok tt)
          × (done.1.rows ≡ upsert status c.rows))
        ⊎ ((e : AppError) × (done.0 ≡ err e) × (done.1.rows ≡ c.rows))
  unfolding publish_new
  publish_new-cases attempt moment secret status c =
      elim (done-cases (secrets.write status.id secret c.secrets).0) [
        | inr (e, p) ↦ inr (e, ground arith, ground arith)
        | inl p ↦ elim (done-cases (check attempt moment.later c.life).1) [
          | inr (e, q) ↦ inr (e, ground arith, ground arith)
          | inl q ↦ elim (Bool-cases statements.upserts) [
            | inl u ↦ inl (ground arith, q, ground arith)
            | inr u ↦ inr (storage, ground arith, ground arith)
          ]
        ]
      ]

  -- The sign-in that `commit_new` completes. If it fails, for whatever reason and at whatever
  -- step, every connection is shown as before, and none under the new identifier. If it succeeds, the
  -- attempt was still the current one when the secret had been written, the new connection is
  -- shown, with scopes that were all requested, and every other is shown as before.
  pub commit_new_cases :
      (attempt : String) (requested : List String) (tokens : TokenResponse) (moment : Moment)
      (k : String) (c : ConnectorsCore S)
      → get moment.fresh c.rows ≡ none
      → let done = commit_new host json secrets statements attempt requested tokens moment c in
        ((e : AppError) × (done.0 ≡ err e) × (get k done.1.rows ≡ get k c.rows))
        ⊎ ((scopes : List String) × (done.0 ≡ ok (new_status moment scopes tokens))
            × All (λ s. contains requested s ≡ true) scopes
            × ((check attempt moment.later (check attempt moment.now c.life).0).1 ≡ ok tt)
            × (get k done.1.rows ≡ (
                if moment.fresh == k
                then some (new_status moment scopes tokens)
                else get k c.rows)))
  unfolding commit_new apply
  commit_new_cases attempt requested tokens moment k c unused =
      elim (done-cases (check attempt moment.now c.life).1) [
        | inr (e, p) ↦ inl (e, ground arith, ground arith)
        | inl p ↦ elim (AppResult-cases (granted_scopes tokens.scope requested false)) [
          | inr (e, q) ↦ inl (e, ground arith, ground arith)
          | inl (scopes, q) ↦ elim (Bool-cases statements.stages) [
            | inr g ↦ inl (storage, ground arith, ground arith)
            | inl g ↦
                let status = new_status moment scopes tokens in
                let secret = payload json tokens tokens.refresh_token status.expires_at in
                let staged : ConnectorsCore S = record c {
                  life = (check attempt moment.now c.life).0;
                  rows = stage status c.rows;
                } in
                let hidden = get-apply (staging status) k c.rows in
                let own = get-apply (staging status) moment.fresh c.rows in
                let published =
                  publish_new host json secrets statements attempt moment secret status staged in
                elim (publish_new-cases attempt moment secret status staged) [
                  | inl (done, current, rows) ↦
                      let shown = get-apply (upserting status) k (stage status c.rows) in
                      inr (
                        scopes,
                        ground arith,
                        (granted_scopes-IsPermitted tokens.scope requested false scopes q).1,
                        current,
                        ground arith,
                      )
                  | inr (e, failed, rows) ↦
                      let absent : get moment.fresh published.1.rows ≡ none =
                        ground (arith, eq_refl moment.fresh) in
                      let (same, f, error) =
                        rollback_staged-hides secrets statements {A = Unit {0}} moment.fresh k e
                          published.1 absent in
                      inl (f, ground arith, ground (arith, eq_iff moment.fresh k))
                ]
          ]
        ]
      ]
