-- ===== src/Examples/Connectors.antt =====
-- Runs of the commands and the callback listener of src-tauri/src/connectors.rs,
-- connectors/store.rs and connectors/loopback.rs.
use desktop_ai_dashboard.Prelude.{
  any, ℕ, Bool, String, true, false, none, some, Option, List, [], ◌∷◌, ◌≡◌, ◌≢◌, ◌⊎◌, inl, refl,
  ok, err, AppError, AppResult, arith, ◌==◌, string_eq, nat_eq, contains, if◌then◌else◌, All, pos,
  missing,
}
use desktop_ai_dashboard.Prelude.Maps
use desktop_ai_dashboard.Host.{Host}
use desktop_ai_dashboard.Connectors.Status.{ConnectorStatus}
use desktop_ai_dashboard.Connectors.Lifecycle.{check, check_refresh}
use desktop_ai_dashboard.Connectors.Store.{ConnectionRow, has_id, get}
use desktop_ai_dashboard.Connectors.Store.Refinement.{
  StoreOperation, upserting, staging, deleting, apply_all, specify_all, apply_all-refines,
}
use desktop_ai_dashboard.Connectors.Commands.{
  Statements, disconnect_error, ConnectorSecrets, ConnectorsCore, TokenJson, TokenResponse,
  disconnect_impl,
}
use desktop_ai_dashboard.Connectors.Commits.{Moment, new_status, commit_new, commit_refresh_checked}
use desktop_ai_dashboard.Connectors.Published.{HasEnded, disconnect_impl-hides, commit_new_cases}
use desktop_ai_dashboard.Connectors.Renewed.{commit_refresh_checked_cases}
use desktop_ai_dashboard.Connectors.Loopback.Requests.{Read, received, not_yet}
use desktop_ai_dashboard.Connectors.Loopback.Waiting.{
  Round, would_block, wait_for_callback, wait_for_callback_ends,
}
use Prim.Native.String.{◌++◌ as append}
use desktop_ai_dashboard.Prelude.Texts.{bytes}
use desktop_ai_dashboard.Examples.Data.{host, connection}
use desktop_ai_dashboard.Examples.Attempts.{waiting, url}

abbrev rows : List ConnectionRow
rows = record { status = connection; disconnected = false } ∷ []

abbrev operations : List StoreOperation
operations = staging connection ∷ (upserting connection ∷ (deleting "connection" ∷ []))

apply_all-refines_example :
    get "connection" (apply_all operations rows)
    ≡ specify_all operations (λ j. get j rows) "connection"
apply_all-refines_example = apply_all-refines operations rows "connection"

-- The secrets in a map.
abbrev Secrets : Type 0
Secrets = List (String × String)

abbrev found : Option String → AppResult String
found none = err missing
found (some k) = ok k

abbrev keychain : ConnectorSecrets Secrets
keychain = record {
  read = λ id s. found (Maps.get id s);
  write = λ id secret s. (ok tt, Maps.insert id secret s);
  remove = λ id s. (ok tt, Maps.remove id s);
}

abbrev json : TokenJson
json = record { print = λ t. t.access_token; parse = λ s. none }

-- A sign-in that waits, and a connection that is refreshed.
abbrev connectors : ConnectorsCore Secrets
connectors = record {
  life = record waiting { refreshes = ("connection", "generation") ∷ [] };
  rows = rows;
  secrets = [];
}

-- Every statement of the store succeeds.
abbrev succeeding : Statements
succeeding = record { stages = true; upserts = true; marks = true; deletes = true }

disconnect_impl-hides_example :
    let done = disconnect_impl keychain succeeding "connection" connectors in
    HasEnded "connection" "connection" connectors.life done.1.life
    × (((done.0 ≡ err disconnect_error) × (succeeding.marks ≡ false) × (done.1.rows ≡ rows))
        ⊎ ((succeeding.marks ≡ true)
            × (get "connection" done.1.rows ≡ (
                if ◌==◌ {T = String} "connection" "connection"
                then none
                else get "connection" rows))
            × (((e : AppError) × (done.0 ≡ err e))
                ⊎ ((done.0 ≡ ok tt) × (any (has_id "connection") done.1.rows ≡ false)))))
disconnect_impl-hides_example =
    disconnect_impl-hides keychain succeeding "connection" "connection" connectors

abbrev moment : Moment
moment = record {
  now = 100;
  later = 110;
  wall = pos 1000;
  text = "1970-01-01T00:00:01Z";
  after_seconds = λ s. "1970-01-01T00:30:00Z";
  fresh = "new";
}

abbrev tokens : TokenResponse
tokens = record {
  access_token = "access";
  refresh_token = some "refresh";
  expires_in = some 1800;
  scope = none;
}

abbrev scopes : List String
scopes = connection.scopes

not_there : get "new" connectors.rows ≡ none
unfolding get
not_there = refl

commit_new_cases_example :
    let done = commit_new host json keychain succeeding "attempt" scopes tokens moment connectors in
    ((e : AppError) × (done.0 ≡ err e) × (get "new" done.1.rows ≡ get "new" rows))
    ⊎ ((granted : List String) × (done.0 ≡ ok (new_status moment granted tokens))
        × All (λ s. contains scopes s ≡ true) granted
        × ((check "attempt" moment.later (check "attempt" moment.now connectors.life).0).1 ≡ ok tt)
        × (get "new" done.1.rows ≡ (
            if ◌==◌ {T = String} "new" "new"
            then some (new_status moment granted tokens)
            else get "new" rows)))
commit_new_cases_example =
    commit_new_cases host json keychain succeeding "attempt" scopes tokens moment "new" connectors
      not_there

commit_refresh_checked_cases_example :
    let done =
      commit_refresh_checked host json keychain succeeding "connection" "generation" "old" tokens
        none moment connectors in
    ((e : AppError) × (done.0 ≡ err e)
      × ((get "other" done.1.rows ≡ get "other" rows)
          ⊎ (get "other" done.1.rows
              ≡ (if ◌==◌ {T = String} "connection" "other" then none else get "other" rows))))
    ⊎ ((old : ConnectorStatus) × (new : ConnectorStatus) × (done.0 ≡ ok new)
        × (check_refresh "connection" "generation" connectors.life ≡ ok tt)
        × (get "connection" rows ≡ some old)
        × (new.id ≡ "connection")
        × All (λ s. contains old.scopes s ≡ true) new.scopes
        × (get "other" done.1.rows
            ≡ (if ◌==◌ {T = String} "connection" "other" then some new else get "other" rows)))
commit_refresh_checked_cases_example =
    commit_refresh_checked_cases host json keychain succeeding "connection" "generation" "old"
      tokens none moment "other" connectors

abbrev quiet : Round
quiet = record { cancelled = false; now = 250; accepted = would_block }

abbrev over : Round
over = record { cancelled = false; now = 300; accepted = would_block }

wait_for_callback_ends_example : wait_for_callback 300 (quiet ∷ (over ∷ [])) ≢ none
wait_for_callback_ends_example = wait_for_callback_ends 300 (quiet ∷ []) [] over (inl (omega arith))

-- Every text parses as the callback of the attempt.
abbrev called : Host
called = record host { parse_url = λ s. some url }

abbrev path : String
path = "/oauth2/google/callback"

abbrev target : String
target = "/oauth2/google/callback?state=state&code=code"

-- A request, its bytes, and what these decode to.
abbrev request : String
request =
    "GET /oauth2/google/callback?state=state&code=code HTTP/1.1\r\nHost: 127.0.0.1:4000\r\n\r\n"

abbrev decode : List ℕ → Option String
decode bytes = some request

abbrev reads : List (Bool × Read)
reads = (false, not_yet) ∷ ((false, received (bytes request) false) ∷ [])
