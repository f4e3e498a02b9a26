-- ===== src/Connectors/Store/Hiding.antt =====
-- Hidden connections of src-tauri/src/connectors/store.rs.
use desktop_ai_dashboard.Prelude.{
  String, true, false, ◌||◌, none, some, List, [], ◌∷◌, ◌++◌, map, ◌==◌, ◌≡◌, ◌≢◌, refl, ap, sym,
  ◌∙◌, string_eq, any, retain, contains, if◌then◌else◌, arith, Bool-cases, eq_iff, inl, inr,
}
use desktop_ai_dashboard.Connectors.Status.{ConnectorStatus}
use desktop_ai_dashboard.Connectors.Store.{
  ConnectionRow, has_id, get, place_id, sort_ids, save, upsert, stage, mark_disconnected,
  cleanup_ids,
}

contains-place :
    (id s : String) (ss : List String) → contains (place_id s ss) id ≡ (s == id || contains ss id)
unfolding place_id
contains-place id s [] = refl
contains-place id s (r ∷ rs) = ground (arith, contains-place id s rs)

contains-sort : (id : String) (ss : List String) → contains (sort_ids ss) id ≡ contains ss id
unfolding sort_ids
contains-sort id [] = refl
contains-sort id (s ∷ ss) = ground (arith, contains-place id s (sort_ids ss), contains-sort id ss)

get-marked : (id : String) (rows : List ConnectionRow) → get id (mark_disconnected id rows).0 ≡ none
unfolding get mark_disconnected
get-marked id [] = refl
get-marked id (r ∷ rows) = ground (arith, get-marked id rows)

marked_listed :
    (id : String) (rows : List ConnectionRow)
    → any (has_id id) rows ≡ true
    → contains
        (map (λ r. r.status.id) (retain (λ r. r.disconnected) (mark_disconnected id rows).0))
        id
      ≡ true
unfolding mark_disconnected
marked_listed id [] h = h
marked_listed id (r ∷ rows) h = ground (arith, marked_listed id rows)

get-other :
    (id other : String) (rows : List ConnectionRow)
    → id ≢ other
    → get other (mark_disconnected id rows).0 ≡ get other rows
unfolding get mark_disconnected
get-other id other [] h = refl
get-other id other (r ∷ rows) h =
    ground (arith, eq_iff r.status.id id, eq_iff r.status.id other, get-other id other rows h)

-- When `mark_disconnected` reports that it has changed a connection, that connection is not found
-- any more and is listed for clean-up, and one with another identifier is found as before.
pub mark_disconnected-hides :
    (id other : String) (rows : List ConnectionRow)
    → (mark_disconnected id rows).1 ≡ true
    → id ≢ other
    → (get id (mark_disconnected id rows).0 ≡ none)
      × (contains (cleanup_ids (mark_disconnected id rows).0) id ≡ true)
      × (get other (mark_disconnected id rows).0 ≡ get other rows)
unfolding cleanup_ids mark_disconnected
mark_disconnected-hides id other rows there apart = (
  get-marked id rows,
  ground (
    arith,
    contains-sort id
        (map (λ r. r.status.id) (retain (λ r. r.disconnected) (mark_disconnected id rows).0)),
    marked_listed id rows there,
  ),
  get-other id other rows apart,
)

get-upserted :
    (status : ConnectorStatus) (rows : List ConnectionRow)
    → any (has_id status.id) rows ≡ true
    → get status.id (
        map
          (λ r. if has_id status.id r then record { status = status; disconnected = false } else r)
          rows)
      ≡ some status
unfolding get
get-upserted status [] h = cc
get-upserted status (r ∷ rows) h =
    ground (arith, eq_iff status.id status.id, get-upserted status rows)

get-appended :
    (status : ConnectorStatus) (rows : List ConnectionRow)
    → any (has_id status.id) rows ≡ false
    → get status.id (rows ++ record { status = status; disconnected = false } ∷ []) ≡ some status
unfolding get
get-appended status [] h = ground (arith, eq_iff status.id status.id)
get-appended status (r ∷ rows) h = ground (arith, get-appended status rows)

get-restaged :
    (status : ConnectorStatus) (rows : List ConnectionRow)
    → get status.id (
        map
          (λ r. if has_id status.id r then record { status = status; disconnected = true } else r)
          rows)
      ≡ none
unfolding get
get-restaged status [] = refl
get-restaged status (r ∷ rows) = ground (arith, get-restaged status rows)

get-staged :
    (status : ConnectorStatus) (rows : List ConnectionRow)
    → any (has_id status.id) rows ≡ false
    → get status.id (rows ++ record { status = status; disconnected = true } ∷ []) ≡ none
unfolding get
get-staged status [] h = ground (arith, eq_iff status.id status.id)
get-staged status (r ∷ rows) h = ground (arith, get-staged status rows)

get-stage :
    (status : ConnectorStatus) (rows : List ConnectionRow)
    → get status.id (stage status rows) ≡ none
unfolding stage save
get-stage status rows = elim (Bool-cases (any (has_id status.id) rows)) [
  | inl there ↦ ground (arith, get-restaged status rows)
  | inr new ↦ ground (arith, get-staged status rows new)
]

get-upsert :
    (status : ConnectorStatus) (rows : List ConnectionRow)
    → get status.id (upsert status rows) ≡ some status
unfolding upsert save
get-upsert status rows = elim (Bool-cases (any (has_id status.id) rows)) [
  | inl there ↦ ground (arith, get-upserted status rows there)
  | inr new ↦ ground (arith, get-appended status rows new)
]

-- A staged connection is not found, whatever was stored under its identifier before, and the one
-- that is then committed is found as it was committed.
pub stage-upsert :
    (status committed : ConnectorStatus) (rows : List ConnectionRow)
    → committed.id ≡ status.id
    → (get status.id (stage status rows) ≡ none)
      × (get status.id (upsert committed (stage status rows)) ≡ some committed)
stage-upsert status committed rows same = (
  get-stage status rows,
  ap (λ k. get k (upsert committed (stage status rows))) (sym same)
      ∙ get-upsert committed (stage status rows),
)
