-- ===== src/Connectors/Store.antt =====
-- The table of connections: src-tauri/src/connectors/store.rs, `impl ConnectorStore`. The table is
-- the list of its rows, and the column `scopes` holds the list that its text decodes to. Failures of
-- the database itself are not modelled.
pub mod Hiding
pub mod Refinement
use Prim.Native.String.{compare}
use text.Mathlib.Text.{is_lt, is_le}
use desktop_ai_dashboard.Prelude.{
  String, Bool, true, false, not, ◌&&◌, ◌||◌, Option, none, some, List, [], ◌∷◌, ◌++◌, map, ◌==◌,
  string_eq, any, retain, if◌then◌else◌,
}
use desktop_ai_dashboard.Connectors.Status.{ConnectorStatus}

pub record ConnectionRow : Type 0 where
  pub status : ConnectorStatus
  pub disconnected : Bool

-- `ORDER BY connected_at, id`.
abbrev before : ConnectorStatus → ConnectorStatus → Bool
before a b =
    is_lt (compare a.connected_at b.connected_at)
    || a.connected_at == b.connected_at && is_lt (compare a.id b.id)

unfoldable pub place : ConnectorStatus → List ConnectorStatus → List ConnectorStatus
place s [] = s ∷ []
place s (r ∷ rs) = if before s r then s ∷ r ∷ rs else r ∷ place s rs

unfoldable pub sort_connections : List ConnectorStatus → List ConnectorStatus
sort_connections [] = []
sort_connections (s ∷ ss) = place s (sort_connections ss)

unfoldable pub place_id : String → List String → List String
place_id s [] = s ∷ []
place_id s (r ∷ rs) = if is_le (compare s r) then s ∷ r ∷ rs else r ∷ place_id s rs

unfoldable pub sort_ids : List String → List String
sort_ids [] = []
sort_ids (s ∷ ss) = place_id s (sort_ids ss)

abbrev pub shown : ConnectionRow → Bool
shown r = not r.disconnected

abbrev pub has_id : String → ConnectionRow → Bool
has_id id r = r.status.id == id

unfoldable pub list : List ConnectionRow → List ConnectorStatus
list rows = sort_connections (map (λ r. r.status) (retain shown rows))

abbrev pub first_status : List ConnectionRow → Option ConnectorStatus
first_status [] = none
first_status (r ∷ rows) = some r.status

unfoldable pub get : String → List ConnectionRow → Option ConnectorStatus
get id rows = first_status (retain (λ r. has_id id r && shown r) rows)

-- `INSERT … ON CONFLICT(id) DO UPDATE`.
unfoldable pub save : ConnectorStatus → Bool → List ConnectionRow → List ConnectionRow
save status disconnected rows =
    let row : ConnectionRow = record { status = status; disconnected = disconnected } in
    if any (has_id status.id) rows
    then map (λ r. if has_id status.id r then row else r) rows
    else rows ++ row ∷ []

unfoldable pub upsert : ConnectorStatus → List ConnectionRow → List ConnectionRow
upsert status = save status false

unfoldable pub stage : ConnectorStatus → List ConnectionRow → List ConnectionRow
stage status = save status true

-- The new table, and whether a row has changed.
unfoldable pub mark_disconnected : String → List ConnectionRow → List ConnectionRow × Bool
mark_disconnected id rows = (
  map (λ r. if has_id id r then record r { disconnected = true } else r) rows,
  any (has_id id) rows,
)

unfoldable pub cleanup_ids : List ConnectionRow → List String
cleanup_ids rows = sort_ids (map (λ r. r.status.id) (retain (λ r. r.disconnected) rows))

unfoldable pub delete : String → List ConnectionRow → List ConnectionRow × Bool
delete id rows = (retain (λ r. not (has_id id r)) rows, any (has_id id) rows)
