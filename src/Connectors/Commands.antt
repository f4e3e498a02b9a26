-- ===== src/Connectors/Commands.antt =====
-- The connectors of src-tauri/src/connectors.rs as their commands change them: the lifecycle, the
-- table of connections and the secrets, each step under its locks. The requests to Google are not
-- modelled; what they answer is an argument, and so are the readings of the clocks.
use desktop_ai_dashboard.Prelude.{
  ℕ, String, Bool, true, false, not, Option, none, some, List, nat_eq, string_eq, is_some_and,
  if◌then◌else◌, AppError, AppResult, ok, err, reject_if,
}
use desktop_ai_dashboard.Prelude.Acts.{Act, ◌>>=◌, ◌>>◌, lift, ask, or_else}
use desktop_ai_dashboard.Connectors.Status.{ConnectorStatus}
use desktop_ai_dashboard.Connectors.Grants.Table.{revoke_connection}
use desktop_ai_dashboard.Connectors.Lifecycle as Life
use desktop_ai_dashboard.Connectors.Lifecycle.{
  Lifecycle, AttemptStatus, AttemptPhase, check, committed, finish, begin_refresh, check_refresh,
  finish_refresh, disconnect, stale_error, bump, expire,
}
use desktop_ai_dashboard.Connectors.Store.{
  ConnectionRow, mark_disconnected, delete, list, cleanup_ids,
}

-- `trait ConnectorSecrets` of keychain.rs, on a state `S`.
pub record ConnectorSecrets (S : Type 0) : Type 0 where
  pub read : String → S → AppResult String
  pub write : String → String → S → AppResult (Unit {0}) × S
  pub remove : String → S → AppResult (Unit {0}) × S

-- Which statements of the store succeed during one command: `stage`, `upsert`,
-- `mark_disconnected` and `delete`. One that fails changes no row.
pub record Statements : Type 0 where
  pub stages : Bool
  pub upserts : Bool
  pub marks : Bool
  pub deletes : Bool

pub record ConnectorsCore (S : Type 0) : Type 0 where
  pub life : Lifecycle
  pub rows : List ConnectionRow
  pub secrets : S

pub record StoredTokens : Type 0 where
  pub access_token : String
  pub refresh_token : Option String
  pub expires_at : Option String

-- What `serde_json` prints and reads for `StoredTokens`.
pub record TokenJson : Type 0 where
  pub print : StoredTokens → String
  pub parse : String → Option StoredTokens

-- `oauth::TokenResponse`.
pub record TokenResponse : Type 0 where
  pub access_token : String
  pub refresh_token : Option String
  pub expires_in : Option ℕ
  pub scope : Option String

pub record ConnectorSnapshot : Type 0 where
  pub revision : ℕ
  pub attempt : Option AttemptStatus
  pub items : List ConnectorStatus
  pub cleanup : List String

abbrev pub credential_error : AppError
credential_error = record {
  code = "connector_credential";
  message = "Stored credentials were unreadable.";
}

abbrev pub no_refresh_token : AppError
no_refresh_token = record {
  code = "connector_credential";
  message = "No refresh token is stored. Reconnect this account.";
}

abbrev pub cleanup_error : AppError
cleanup_error = record {
  code = "connector_cleanup";
  message = "Disconnected locally. Credential cleanup failed. Retry cleanup in Accounts.";
}

abbrev pub disconnect_error : AppError
disconnect_error = record {
  code = "connector_disconnect";
  message = "Disconnect failed. Connection status is unconfirmed.";
}

abbrev pub incomplete_error : AppError
incomplete_error = record {
  code = "connector_cleanup";
  message = "Disconnected locally. Cleanup is incomplete. Retry cleanup in Accounts.";
}

abbrev pub not_found : AppError
not_found = record { code = "not_found"; message = "That connector was not found." }

abbrev pub or_default {ℓ} : {A : Type ℓ} → Option A → A → A
or_default none a = a
or_default (some b) a = b

abbrev pub revoke_grants : String → Lifecycle → Lifecycle
revoke_grants id s = record s { grants = revoke_connection id s.grants }

abbrev is_pending_phase : AttemptPhase → Bool
is_pending_phase Life.pending = true
is_pending_phase _ = false

module _ {S : Type 0} where
  -- An operation on the lifecycle that gives a result.
  abbrev pub on_life {ℓ} :
      {A : Type ℓ} → (Lifecycle → Lifecycle × AppResult A) → Act (ConnectorsCore S) A
  on_life f c = ((f c.life).1, record c { life = (f c.life).0 })

  abbrev pub set_life : (Lifecycle → Lifecycle) → Act (ConnectorsCore S) (Unit {0})
  set_life f c = (ok tt, record c { life = f c.life })

  -- A statement that changes the rows, if it succeeds.
  abbrev pub write_rows :
      Bool
      → AppError
      → (List ConnectionRow → List ConnectionRow)
      → Act (ConnectorsCore S) (Unit {0})
  write_rows true e f c = (ok tt, record c { rows = f c.rows })
  write_rows false e f c = (err e, c)

  unfoldable pub snapshot : ℕ → Act (ConnectorsCore S) ConnectorSnapshot
  snapshot now = do
    set_life (Life.expire now)
    ask λ c. ok (record {
      revision = c.life.revision;
      attempt = c.life.attempt;
      items = list c.rows;
      cleanup = cleanup_ids c.rows;
    })

  -- The step of `launch_google_browser` that admits the browser.
  unfoldable pub admit_launch : String → ℕ → Act (ConnectorsCore S) (Unit {0})
  admit_launch id now = do
    on_life (check id now)
    ask λ c.
        reject_if (not (is_some_and c.life.attempt (λ a. is_pending_phase a.phase))) stale_error

module _ {S : Type 0} (secrets : ConnectorSecrets S) where
  abbrev pub write_secret : String → String → Act (ConnectorsCore S) (Unit {0})
  write_secret id payload c =
      let r = secrets.write id payload c.secrets in (r.0, record c { secrets = r.1 })

  abbrev pub remove_secret : String → Act (ConnectorsCore S) (Unit {0})
  remove_secret id c = let r = secrets.remove id c.secrets in (r.0, record c { secrets = r.1 })

  -- The error that `rollback_staged` returns, and what it leaves.
  unfoldable pub rollback_staged {ℓ} :
      {A : Type ℓ} → Statements → String → AppError → Act (ConnectorsCore S) A
  rollback_staged statements id original = do
    or_else (remove_secret id) (λ e. lift (err cleanup_error))
    write_rows statements.deletes incomplete_error (λ rows. (delete id rows).0)
    lift (err original)

  unfoldable pub disconnect_impl : Statements → String → Act (ConnectorsCore S) (Unit {0})
  disconnect_impl statements id = do
    set_life (Life.disconnect id)
    found ← ask λ c. ok (mark_disconnected id c.rows).1
    write_rows statements.marks disconnect_error (λ rows. (mark_disconnected id rows).0)
    or_else (remove_secret id) (λ e. lift (err (if found then cleanup_error else credential_error)))
    write_rows statements.deletes incomplete_error (λ rows. (delete id rows).0)
    lift (reject_if (not found) not_found)
