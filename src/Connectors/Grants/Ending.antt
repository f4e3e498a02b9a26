-- ===== src/Connectors/Grants/Ending.antt =====
-- The invariant of the grant table and the ends of reads and connections: `finish` and
-- `revoke_connection` of src-tauri/src/connectors/grants.rs.
use desktop_ai_dashboard.Prelude.{
  String, Bool, not, some, List, ◌≡◌, ◌≢◌, ap, inl, inr, ◌==◌, string_eq, nat_eq, retain, arith,
  eq_iff, Bool-cases, Option-cases, is_some_and, length-retain-le,
}
use desktop_ai_dashboard.Prelude.Maps.{
  get, remove, get-remove, get-retain, Unique-retain, Unique-remove,
}
use desktop_ai_dashboard.Connectors.Grants.Types.{ConnectorGrant, ActiveRead, Grants}
use desktop_ai_dashboard.Connectors.Grants.Table.{revoke_connection, finish}
use desktop_ai_dashboard.Connectors.Grants.Invariant.{IsTidy, IsBacked, IsSound}

-- Taking the read of one connection out.
drop_read-IsTidy :
    (connection : String) (s : Grants)
    → IsTidy s
    → IsTidy (record s { active = remove connection s.active })
drop_read-IsTidy connection s t = record {
  items_unique = t.items_unique;
  active_unique = Unique-remove connection s.active t.active_unique;
  keyed = λ c r h. t.keyed c r (was c r h);
  live = λ c r h. t.live c r (was c r h);
  own_token = λ c d r q h k e. t.own_token c d r q (was c r h) (was d q k) e;
  few_grants = t.few_grants;
  few_fences = t.few_fences;
}
  where
    was :
        (c : String) (r : ActiveRead)
        → get c (remove connection s.active) ≡ some r
        → get c s.active ≡ some r
    was c r h = ground (arith, get-remove connection c s.active)

-- What is left after a removal was there, under another key.
get-remove-some :
    {V : Type 0} (k j : String) (m : List (String × V)) {v : V}
    → get j (remove k m) ≡ some v
    → (get j m ≡ some v) × (j ≢ k)
get-remove-some k j m {v} h =
    (ground (arith, get-remove k j m), λ e. ground (arith, get-remove k j m, eq_iff k j))

pub finish-IsSound :
    (connection id : String) (s : Grants) → IsSound s → IsSound (finish connection id s)
unfolding finish
finish-IsSound connection id s v =
    elim (Bool-cases (is_some_and (get connection s.active) (λ read. read.id == id))) [
      | inr other ↦ rw other v
      | inl own ↦ rw own (record {
        tidy = drop_read-IsTidy connection s v.tidy;
        backed = λ c r h. v.backed c r (get-remove-some connection c s.active h).0;
      })
    ]

-- A read of another connection keeps its grant when the grants of `connection` go.
other-IsBacked :
    (connection : String) (s : Grants)
    → IsSound s
    → (c : String) (r : ActiveRead) → get c s.active ≡ some r
    → c ≢ connection
    → IsBacked
        (retain (λ e. not (e.1.scope.connection_id == connection)) s.items)
        s.cancelled_runs
        r
other-IsBacked connection s v c r h apart =
    let b = v.backed c r h in
    let own = v.tidy.keyed c r h in
    record {
      grant = b.grant;
      held =
          get-retain (λ e. not (e.1.scope.connection_id == connection)) r.context.grant_id s.items
            b.held
            (ground (arith, b.connection, own, eq_iff b.grant.scope.connection_id connection));
      connection = b.connection;
      unfenced = b.unfenced;
    }

drop_items-IsTidy :
    (keep : String × ConnectorGrant → Bool) (s : Grants)
    → IsTidy s
    → IsTidy (record s { items = retain keep s.items })
drop_items-IsTidy keep s t = record {
  items_unique = Unique-retain keep s.items t.items_unique;
  active_unique = t.active_unique;
  keyed = t.keyed;
  live = t.live;
  own_token = t.own_token;
  few_grants = omega (arith, length-retain-le keep s.items, t.few_grants);
  few_fences = t.few_fences;
}

pub revoke_connection-IsSound :
    (connection : String) (s : Grants) → IsSound s → IsSound (revoke_connection connection s)
unfolding revoke_connection
revoke_connection-IsSound connection s v = elim (Option-cases (get connection s.active)) [
  | inl idle ↦
      rw (idle, revoke_connection)
        (record {
          tidy = drop_items-IsTidy _ s v.tidy;
          backed = λ c r h.
              other-IsBacked connection s v c r h
                (λ e. let clash = ap (λ k. get k s.active) e in cc);
        })
  | inr (read, busy) ↦
      let t = drop_read-IsTidy connection _ (drop_items-IsTidy _ s v.tidy) in
      rw (busy, revoke_connection)
        (record {
          tidy = record {
            items_unique = t.items_unique;
            active_unique = t.active_unique;
            keyed = t.keyed;
            live = λ c r h.
                let (found, apart) = get-remove-some connection c s.active h in
                let before = v.tidy.live c r found in
                elim (Bool-cases (read.cancel == r.cancel)) [
                  | inl same ↦
                      absurd
                        (apart (v.tidy.own_token c connection r read found busy (ground arith)))
                  | inr differ ↦ rw differ before
                ];
            own_token = t.own_token;
            few_grants = t.few_grants;
            few_fences = t.few_fences;
          };
          backed = λ c r h.
              let (found, apart) = get-remove-some connection c s.active h in
              other-IsBacked connection s v c r found apart;
        })
]
