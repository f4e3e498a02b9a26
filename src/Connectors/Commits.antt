-- ===== src/Connectors/Commits.antt =====
-- What src-tauri/src/connectors.rs does with the tokens that Google has answered: `commit_new`,
-- `begin_refresh_checked` and `commit_refresh_checked`.
use desktop_ai_dashboard.Prelude.{
  storage, ℕ, ℤ, String, Bool, true, false, not, ◌&&◌, Option, none, some, List, [], ◌∷◌, ◌==◌,
  string_eq, is_some, if◌then◌else◌, AppError, ok, err, reject_if, ok_or,
}
use desktop_ai_dashboard.Prelude.Acts.{Act, ◌>>=◌, ◌>>◌, pure, lift, ask, or_else}
use desktop_ai_dashboard.Host.{Host}
use desktop_ai_dashboard.Connectors.Status.{ConnectorStatus}
use desktop_ai_dashboard.Connectors.Grants.Types.{RuntimeReadContext, denied}
use desktop_ai_dashboard.Connectors.Grants.Table.{check_read}
use desktop_ai_dashboard.Connectors.Lifecycle.{
  check, committed, begin_refresh, check_refresh, finish_refresh, stale_error, bump,
}
use desktop_ai_dashboard.Connectors.Store.{stage, upsert, mark_disconnected, get}
use desktop_ai_dashboard.Connectors.Scopes.{granted_scopes}
use desktop_ai_dashboard.Connectors.Commands.{
  Statements, write_rows, ConnectorSecrets, ConnectorsCore, StoredTokens, TokenJson, TokenResponse,
  credential_error, no_refresh_token, not_found, or_default, revoke_grants, on_life, set_life,
  write_secret, rollback_staged,
}

-- The clocks: the monotonic one, read twice, and the wall clock in milliseconds; the texts of a
-- moment and of a moment so many seconds later, and a new identifier.
pub record Moment : Type 0 where
  pub now : ℕ
  pub later : ℕ
  pub wall : ℤ
  pub text : String
  pub after_seconds : ℕ → String
  pub fresh : String

abbrev pub new_status : Moment → List String → TokenResponse → ConnectorStatus
new_status moment scopes tokens = record {
  id = moment.fresh;
  provider = "google";
  scopes = scopes;
  display_name = none;
  connected_at = moment.text;
  expires_at = moment.after_seconds (or_default tokens.expires_in 3600);
}

abbrev pub payload : TokenJson → TokenResponse → Option String → String → String
payload json tokens refresh expires_at = json.print (record {
  access_token = tokens.access_token;
  refresh_token = refresh;
  expires_at = some expires_at;
})

abbrev usable : Option String → Option String
usable none = none
usable (some token) = if token == "" then none else some token

abbrev pub same_scopes : List String → List String → Bool
same_scopes [] [] = true
same_scopes (a ∷ left) (b ∷ right) = a == b && same_scopes left right
same_scopes _ _ = false

module _ {S : Type 0} (host : Host) (json : TokenJson) (secrets : ConnectorSecrets S) where
  unfoldable pub read_stored : String → Act (ConnectorsCore S) StoredTokens
  read_stored id = do
    raw ← ask λ c. secrets.read id c.secrets
    stored ← lift (ok_or (json.parse raw) credential_error)
    lift (reject_if (stored.access_token == "") credential_error)
    pure stored

  -- The writes of `commit_new` behind the staged row.
  unfoldable pub publish_new :
      Statements → String → Moment → String → ConnectorStatus → Act (ConnectorsCore S) (Unit {0})
  publish_new statements attempt moment secret status = do
    write_secret secrets status.id secret
    on_life (check attempt moment.later)
    write_rows statements.upserts storage (upsert status)

  unfoldable pub commit_new :
      Statements
      → String
      → List String
      → TokenResponse
      → Moment
      → Act (ConnectorsCore S) ConnectorStatus
  commit_new statements attempt requested tokens moment = do
    on_life (check attempt moment.now)
    scopes ← lift (granted_scopes tokens.scope requested false)
    let status : ConnectorStatus = new_status moment scopes tokens
    write_rows statements.stages storage (stage status)
    or_else
        (publish_new statements attempt moment
          (payload json tokens tokens.refresh_token status.expires_at) status)
        (λ e. rollback_staged secrets statements status.id e)
    set_life (committed attempt)
    pure status

  -- The check of the lease that a read holds, with its connection; none for a refresh by hand.
  abbrev pub check_lease :
      String → Option (RuntimeReadContext × String) → ℤ → Act (ConnectorsCore S) (Unit {0})
  check_lease id none wall = pure tt
  check_lease id (some (context, lease)) wall = do
    lift (reject_if (not (context.connection_id == id)) denied)
    on_life
        λ s. let r = check_read host context lease wall s.grants in (record s { grants = r.0 }, r.1)

  -- The generation of the refresh, and the token to refresh with.
  unfoldable pub begin_refresh_checked :
      String
      → Option (RuntimeReadContext × String)
      → Moment
      → Act (ConnectorsCore S) (String × String)
  begin_refresh_checked id read moment = do
    check_lease id read moment.wall
    ask λ c. reject_if (not (is_some (get id c.rows))) not_found
    stored ← read_stored id
    refresh ← lift (ok_or (usable stored.refresh_token) no_refresh_token)
    generation ← on_life (begin_refresh id moment.fresh)
    pure (generation, refresh)

  -- The writes of `commit_refresh_checked` behind the staged row.
  unfoldable pub write_renewed :
      Statements → String → ConnectorStatus → Act (ConnectorsCore S) (Unit {0})
  write_renewed statements secret status = do
    write_secret secrets status.id secret
    write_rows statements.upserts storage (upsert status)
    set_life (λ s. record s { revision = bump s.revision })

  -- The end of `commit_refresh_checked` for scopes that were granted.
  unfoldable pub publish_refresh :
      Statements
      → String
      → String
      → ConnectorStatus
      → String
      → Act (ConnectorsCore S) ConnectorStatus
  publish_refresh statements id generation status secret = do
    write_rows statements.stages storage (stage status)
    or_else (write_renewed statements secret status) (λ e. do
      set_life (λ s. revoke_grants status.id (record s { revision = bump s.revision }))
      rollback_staged secrets statements status.id e)
    set_life (finish_refresh id generation)
    pure status

  unfoldable pub refuse_refresh :
      Statements → String → AppError → Act (ConnectorsCore S) ConnectorStatus
  refuse_refresh statements id e = do
    set_life (revoke_grants id)
    write_rows statements.marks storage (λ rows. (mark_disconnected id rows).0)
    set_life (λ s. record s { revision = bump s.revision })
    rollback_staged secrets statements id e

  -- `commit_refresh_checked` behind its checks, for the status that it finds.
  unfoldable pub renew :
      Statements
      → String
      → String
      → String
      → TokenResponse
      → Moment
      → ConnectorStatus
      → Act (ConnectorsCore S) ConnectorStatus
  renew statements id generation previous tokens moment old =
      elim (granted_scopes tokens.scope old.scopes true) [
        | err e ↦ refuse_refresh statements old.id e
        | ok scopes ↦ do
          set_life (λ s. if same_scopes old.scopes scopes then s else revoke_grants old.id s)
          let expires : String = moment.after_seconds (or_default tokens.expires_in 3600)
          publish_refresh statements id generation
              (record old { scopes = scopes; expires_at = expires })
              (payload json tokens (some (or_default tokens.refresh_token previous)) expires)
      ]

  unfoldable pub commit_refresh_checked :
      Statements
      → String
      → String
      → String
      → TokenResponse
      → Option (RuntimeReadContext × String)
      → Moment
      → Act (ConnectorsCore S) ConnectorStatus
  commit_refresh_checked statements id generation previous tokens read moment = do
    check_lease id read moment.wall
    ask λ c. check_refresh id generation c.life
    old ← ask λ c. ok_or (get id c.rows) stale_error
    renew statements id generation previous tokens moment old
