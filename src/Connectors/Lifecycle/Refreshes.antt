-- ===== src/Connectors/Lifecycle/Refreshes.antt =====
-- The ownership of token refreshes in src-tauri/src/connectors/lifecycle.rs.
use desktop_ai_dashboard.Prelude.{
  String, none, some, ◌≡◌, ◌≢◌, ◌↔◌, inl, inr, ◌==◌, string_eq, if◌then◌else◌, ok, err, arith,
  eq_iff, Option-cases,
}
use desktop_ai_dashboard.Prelude.Maps.{get, insert, remove, get-insert, get-remove}
use desktop_ai_dashboard.Connectors.Lifecycle.{
  Lifecycle, begin_refresh, check_refresh, finish_refresh, disconnect, stale_error, refresh_pending,
}

-- A refresh is owned by one generation: `begin_refresh` is refused while one is running and else
-- makes its own generation the current one; `check_refresh` accepts exactly the current generation.
pub begin_refresh_owns :
    (id fresh generation : String) (s : Lifecycle)
    → ((check_refresh id generation s ≡ ok tt) ↔ (get id s.refreshes ≡ some generation))
      × ((get id s.refreshes ≢ none) → begin_refresh id fresh s ≡ (s, err refresh_pending))
      × (get id s.refreshes ≡ none
          → ((begin_refresh id fresh s).1 ≡ ok fresh)
            × ((j : String)
                → get j (begin_refresh id fresh s).0.refreshes
                  ≡ (if id == j then some fresh else get j s.refreshes)))
unfolding check_refresh begin_refresh
begin_refresh_owns id fresh generation s = elim (Option-cases (get id s.refreshes)) [
  | inl idle ↦ (
    (λ h. ground arith, λ h. cc),
    λ h. absurd (h idle),
    λ h. (ground arith, λ j. ground (arith, get-insert id j fresh s.refreshes)),
  )
  | inr (current, running) ↦ (
    (
      λ h. ground (arith, eq_iff current generation),
      λ h. ground (arith, eq_iff current generation),
    ),
    λ h. ground arith,
    λ h. cc,
  )
]

-- Disconnecting invalidates every refresh of the connection. A new refresh under another
-- generation does not revive an old one, and the late end of the old one does not end the new one.
pub disconnect_invalidates :
    (id old new : String) (s : Lifecycle)
    → old ≢ new
    → let t = (begin_refresh id new (disconnect id s)).0 in
      (check_refresh id old (disconnect id s) ≡ err stale_error)
      × (check_refresh id old t ≡ err stale_error)
      × (finish_refresh id old t ≡ t)
      × (check_refresh id new t ≡ ok tt)
      × (check_refresh id new (finish_refresh id new t) ≡ err stale_error)
unfolding check_refresh begin_refresh finish_refresh disconnect
disconnect_invalidates id old new s differ =
    let gone : get id (remove id s.refreshes) ≡ none =
      ground (arith, get-remove id id s.refreshes, eq_iff id id) in
    let owned : get id (insert id new (remove id s.refreshes)) ≡ some new =
      ground (arith, get-insert id id new (remove id s.refreshes), eq_iff id id) in
    let left : get id (remove id (insert id new (remove id s.refreshes))) ≡ none =
      ground (arith, get-remove id id (insert id new (remove id s.refreshes)), eq_iff id id) in
    (
      ground arith,
      ground (arith, eq_iff new old),
      ground (arith, eq_iff new old),
      ground (arith, eq_iff new new),
      ground (arith, eq_iff new new),
    )
