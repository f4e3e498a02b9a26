-- ===== src/Connectors/Grants/Operations.antt =====
-- The operations of the grant table (src-tauri/src/connectors/grants.rs) as one step function, and
-- the tables that sequences of them reach.
use desktop_ai_dashboard.Prelude.{
  ℤ, String, false, none, some, List, [], ◌∷◌, ◌≡◌, ◌≢◌, contains, nat_eq, arith,
}
use desktop_ai_dashboard.Prelude.Maps.{get}
use desktop_ai_dashboard.Host.{Host}
use desktop_ai_dashboard.Connectors.Status.{ConnectorStatus}
use desktop_ai_dashboard.Connectors.Grants.Types.{
  GrantRequest, RuntimeReadContext, Token, ActiveRead, Grants,
}
use desktop_ai_dashboard.Connectors.Grants.Table.{
  revoke, revoke_connection, finish, expire, register, list_grants, check, begin, check_read,
  cancel_run,
}
use desktop_ai_dashboard.Connectors.Grants.Invariant.{IsSound, revoke-IsSound, expire-IsSound}
use desktop_ai_dashboard.Connectors.Grants.Ending.{finish-IsSound, revoke_connection-IsSound}
use desktop_ai_dashboard.Connectors.Grants.Preservation.{
  register-IsSound, begin-IsSound, cancel_run-IsSound,
}

pub data Operation : Type 0 where
  registering : GrantRequest → ConnectorStatus → ℤ → String → Operation
  listing : ℤ → Operation
  checking : RuntimeReadContext → ℤ → Operation
  beginning : RuntimeReadContext → ℤ → String → Token → Operation
  checking_read : RuntimeReadContext → String → ℤ → Operation
  finishing : String → String → Operation
  revoking : String → Operation
  disconnecting : String → Operation
  cancelling : String → String → ℤ → Operation

-- `Grants::default()`.
abbrev pub no_grants : Grants
no_grants = record { items = []; active = []; cancelled_runs = []; cancelled = [] }

module _ (host : Host) where
  unfoldable pub apply : Operation → Grants → Grants
  apply (registering request status now fresh) s = (register host request status now fresh s).0
  apply (listing now) s = (list_grants host now s).0
  apply (checking context now) s = (check host context now s).0
  apply (beginning context now fresh token) s = (begin host context now fresh token s).0
  apply (checking_read context id now) s = (check_read host context id now s).0
  apply (finishing connection id) s = finish connection id s
  apply (revoking id) s = revoke id s
  apply (disconnecting connection) s = revoke_connection connection s
  apply (cancelling workspace run now) s = (cancel_run host workspace run now s).0

  unfoldable pub apply_all : List Operation → Grants → Grants
  apply_all [] s = s
  apply_all (op ∷ ops) s = apply_all ops (apply op s)

  -- New identifiers and new tokens differ from those in use.
  abbrev pub IsFresh : Operation → Grants → Type 0
  IsFresh (registering request status now fresh) s = get fresh (expire host now s).items ≡ none
  IsFresh (beginning context now fresh token) s =
      (contains (expire host now s).cancelled token ≡ false)
      × ((c : String) (r : ActiveRead)
          → get c (expire host now s).active ≡ some r
          → r.cancel ≢ token)
  IsFresh _ s = Unit

  pub data Reachable : Grants → Type 0 where
    start : Reachable no_grants
    next : {s : Grants} → Reachable s → (op : Operation) → IsFresh op s → Reachable (apply op s)

  pub apply-IsSound :
      (op : Operation) (s : Grants) → IsFresh op s → IsSound s → IsSound (apply op s)
  unfolding apply list_grants check check_read
  apply-IsSound (registering request status now fresh) s f v =
      register-IsSound host request status now fresh s f v
  apply-IsSound (listing now) s f v = expire-IsSound host now s v
  apply-IsSound (checking context now) s f v = expire-IsSound host now s v
  apply-IsSound (beginning context now fresh token) s (unused, own) v =
      begin-IsSound host context now fresh token s unused own v
  apply-IsSound (checking_read context id now) s f v = expire-IsSound host now s v
  apply-IsSound (finishing connection id) s f v = finish-IsSound connection id s v
  apply-IsSound (revoking id) s f v = revoke-IsSound id s v
  apply-IsSound (disconnecting connection) s f v = revoke_connection-IsSound connection s v
  apply-IsSound (cancelling workspace run now) s f v = cancel_run-IsSound host workspace run now s v

no_grants-IsSound : IsSound no_grants
unfolding get
no_grants-IsSound = record {
  tidy = record {
    items_unique = tt;
    active_unique = tt;
    keyed = λ c r h. cc;
    live = λ c r h. cc;
    own_token = λ c d r q h k e. cc;
    few_grants = omega arith;
    few_fences = omega arith;
  };
  backed = λ c r h. cc;
}

-- In every table that the operations reach from the empty one, with new identifiers and new
-- tokens: every active read stands under its own connection, rests on a held grant for that
-- connection and on no remembered cancellation of its run, and its token is its own and not
-- cancelled; and at most 128 grants and 256 cancelled runs are kept.
pub reachable_grants-IsSound : (host : Host) (s : Grants) → Reachable host s → IsSound s
reachable_grants-IsSound host s start = no_grants-IsSound
reachable_grants-IsSound host s (next {s = t} r op f) =
    apply-IsSound host op t f (reachable_grants-IsSound host t r)
