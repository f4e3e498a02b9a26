-- ===== src/Examples/Grants.antt =====
-- Runs of the grant table (src-tauri/src/connectors/grants.rs).
use desktop_ai_dashboard.Prelude.{
  pos, later, String, true, false, none, some, [], ◌∷◌, ◌≡◌, ◌≢◌, ◌↔◌, ◌≤◌, ◌<◌, refl, ok, is_ok,
  contains, nat_eq, string_eq, arith, eq_iff,
}
use desktop_ai_dashboard.Prelude.Maps.{get, insert, remove}
use desktop_ai_dashboard.Connectors.Grants.Types.{scope_allowed, category, Grants, ActiveRead}
use desktop_ai_dashboard.Connectors.Grants.Requests.{
  repeats_after, validate, origin, identity, validate_id, timestamp,
}
use desktop_ai_dashboard.Connectors.Grants.Table.{
  register, admit, revoke, revoke_all, end_reads, lapsed, expire, decide, refused, check, begin,
  cancel_run,
}
use desktop_ai_dashboard.Connectors.Grants.Access.{Authorized, check_iff}
use desktop_ai_dashboard.Connectors.Grants.Invariant.{IsSound}
use desktop_ai_dashboard.Connectors.Grants.Operations.{
  no_grants, registering, beginning, IsFresh, checking, listing, apply, apply_all, start, next,
  reachable_grants-IsSound,
}
use desktop_ai_dashboard.Connectors.Grants.Revocation.{revoked_stays_refused}
use desktop_ai_dashboard.Connectors.Grants.Fences.{cancelled_stays_refused}
use desktop_ai_dashboard.Connectors.Grants.Reads.{cancel_run_ends_reads}
use desktop_ai_dashboard.Prelude.{List, false}
use desktop_ai_dashboard.Host.{Host}
use desktop_ai_dashboard.Examples.Data.{connection}
use desktop_ai_dashboard.Connectors.Store.{ConnectionRow, mark_disconnected}
use desktop_ai_dashboard.Examples.Data.{host, request, grant, context, read, granted, reading}

check_iff_example :
    ((check host context (pos 0) granted).1 ≡ ok tt)
    ↔ Authorized host context (pos 0) (expire host (pos 0) granted)
check_iff_example = check_iff host context (pos 0) granted

run_cancelled : (cancel_run host "workspace" "run" (pos 0) reading).1 ≡ ok tt
unfolding cancel_run identity expire revoke_all end_reads lapsed timestamp
run_cancelled = refl

in_time : (0 ≤ 1000) × (1000 < 3600000) × (2000 < 3600000)
in_time = (omega arith, omega arith, omega arith)

cancelled_stays_refused_example :
    let u =
      apply_all host
        (checking context (pos 1000) ∷ [])
        (cancel_run host "workspace" "run" (pos 0) reading).0 in
    ((check host context (pos 2000) u).1 ≢ ok tt)
    × (is_ok (begin host context (pos 2000) "next" 8 u).1 ≡ false)
unfolding later
cancelled_stays_refused_example =
    cancelled_stays_refused host context (checking context (pos 1000) ∷ []) reading (pos 0)
      (pos 2000) "next" 8 run_cancelled (((in_time.0, in_time.1)), tt) in_time.2

revoked_stays_refused_example :
    let t = apply_all host (listing (pos 1000) ∷ []) (revoke "grant" reading) in
    ((check host context (pos 2000) t).1 ≢ ok tt)
    × (is_ok (begin host context (pos 2000) "next" 8 t).1 ≡ false)
revoked_stays_refused_example =
    revoked_stays_refused host context (listing (pos 1000) ∷ []) reading (pos 2000) "next" 8
      (tt, tt)

granted_before : get "connection" reading.active ≡ some read
unfolding get
granted_before = refl

reading-IsSound : IsSound reading
unfolding get
reading-IsSound = record {
  tidy = record {
    items_unique = (refl, tt);
    active_unique = (refl, tt);
    keyed = λ c r h. ground (arith, eq_iff "connection" c);
    live = λ c r h. refl;
    own_token = λ c d r q h k e. ground (arith, eq_iff "connection" c, eq_iff "connection" d);
    few_grants = omega arith;
    few_fences = omega arith;
  };
  backed = λ c r h.
      let same : r ≡ read = ground arith in
      rw same (record { grant = grant; held = refl; connection = refl; unfenced = refl });
}

granted-IsSound : IsSound granted
unfolding get
granted-IsSound = record {
  tidy = record {
    items_unique = (refl, tt);
    active_unique = tt;
    keyed = λ c r h. cc;
    live = λ c r h. cc;
    own_token = λ c d r q h k e. cc;
    few_grants = omega arith;
    few_fences = omega arith;
  };
  backed = λ c r h. cc;
}

swept : get "connection" (expire host (pos 1000) reading).active ≡ some read
unfolding get expire revoke_all end_reads lapsed timestamp
swept = refl

cancelled_later : (cancel_run host "workspace" "run" (pos 1000) reading).1 ≡ ok tt
unfolding cancel_run identity expire revoke_all end_reads lapsed timestamp
cancelled_later = refl

cancel_run_ends_reads_example :
    (get "connection" (cancel_run host "workspace" "run" (pos 1000) reading).0.active ≡ none)
    × (contains (cancel_run host "workspace" "run" (pos 1000) reading).0.cancelled 7 ≡ true)
cancel_run_ends_reads_example =
    cancel_run_ends_reads host "workspace" "run" (pos 1000) reading "connection" read
      reading-IsSound cancelled_later swept refl refl

begun : (begin host context (pos 0) "read" 7 granted).1 ≡ ok ("read", 7)
unfolding begin decide expire revoke_all end_reads lapsed timestamp identity validate_id get refused
    later category
begun = refl

-- Every text is an origin.
abbrev linked : Host
linked = record host {
  parse_url = λ s. some (record {
    text = s;
    scheme = "https";
    username = "";
    password = none;
    host = some "example";
    port = none;
    path = "/";
    query = none;
    query_pairs = [];
    fragment = none;
    origin = s;
  });
}

-- A grant is registered, and a read begins under it.
abbrev registered : Grants
registered = apply linked (registering request connection (pos 0) "grant") no_grants

new_grant : get "grant" (expire linked (pos 0) no_grants).items ≡ none
unfolding get expire end_reads revoke_all
new_grant = refl

registers : registered ≡ record no_grants { items = ("grant", grant) ∷ [] }
unfolding get apply register admit expire revoke_all end_reads lapsed timestamp identity validate_id
    validate origin later category insert remove repeats_after scope_allowed
registers = refl

no_reads : (expire linked (pos 0) granted).active ≡ []
unfolding expire revoke_all end_reads lapsed timestamp later
no_reads = refl

no_tokens : contains (expire linked (pos 0) granted).cancelled 7 ≡ false
unfolding expire revoke_all end_reads lapsed timestamp later
no_tokens = refl

not_found : (c : String) (r : ActiveRead) → get c [] ≡ some r → ⊥
unfolding get
not_found c r h = cc

new_token : IsFresh linked (beginning context (pos 0) "read" 7) registered
new_token = rw registers (no_tokens, λ c r h e. not_found c r (rw (← no_reads) h))

abbrev under_way : Grants
under_way = apply linked (beginning context (pos 0) "read" 7) registered

-- The table then has the read.
read_under_way : get "connection" under_way.active ≡ some read
unfolding get apply begin decide expire revoke_all end_reads lapsed timestamp identity validate_id
    refused later category insert remove
read_under_way = rw registers refl

reachable_grants-IsSound_example : IsSound under_way
reachable_grants-IsSound_example = reachable_grants-IsSound linked under_way (
    next (next start (registering request connection (pos 0) "grant") new_grant)
      (beginning context (pos 0) "read" 7) new_token)

abbrev connected : List ConnectionRow
connected = record { status = connection; disconnected = false } ∷ []

marked : (mark_disconnected "connection" connected).1 ≡ true
unfolding mark_disconnected
marked = refl

apart : ◌≢◌ {A = String} "connection" "other"
apart = λ h. ground (arith, eq_iff "connection" "other")
