-- ===== src/Connectors/Store/Refinement.antt =====
-- The table of connections of src-tauri/src/connectors/store.rs as an abstract map: which
-- connection `get` finds under each identifier, whatever the rows and their order.
use desktop_ai_dashboard.Prelude.{
  String, Bool, true, false, Option, none, some, List, [], ◌∷◌, ◌++◌, map, ◌≡◌, refl, ◌∙◌, ◌==◌,
  string_eq, any, if◌then◌else◌, arith, eq_iff, eq_refl, Bool-cases, inl, inr,
}
use desktop_ai_dashboard.Connectors.Status.{ConnectorStatus}
use desktop_ai_dashboard.Connectors.Store.{
  ConnectionRow, has_id, get, save, upsert, stage, mark_disconnected, delete,
}

pub data StoreOperation : Type 0 where
  upserting : ConnectorStatus → StoreOperation
  staging : ConnectorStatus → StoreOperation
  disconnecting : String → StoreOperation
  deleting : String → StoreOperation

unfoldable pub apply : StoreOperation → List ConnectionRow → List ConnectionRow
apply (upserting status) rows = upsert status rows
apply (staging status) rows = stage status rows
apply (disconnecting id) rows = (mark_disconnected id rows).0
apply (deleting id) rows = (delete id rows).0

unfoldable pub apply_all : List StoreOperation → List ConnectionRow → List ConnectionRow
apply_all [] rows = rows
apply_all (op ∷ ops) rows = apply_all ops (apply op rows)

-- The specification: a connection is there, with its status, or it is not.
abbrev pub Connections : Type 0
Connections = String → Option ConnectorStatus

abbrev assign : String → Option ConnectorStatus → Connections → Connections
assign id status m k = if id == k then status else m k

abbrev pub specify : StoreOperation → Connections → Connections
specify (upserting status) m = assign status.id (some status) m
specify (staging status) m = assign status.id none m
specify (disconnecting id) m = assign id none m
specify (deleting id) m = assign id none m

unfoldable pub specify_all : List StoreOperation → Connections → Connections
specify_all [] m = m
specify_all (op ∷ ops) m = specify_all ops (specify op m)

abbrev visible : Bool → ConnectorStatus → Option ConnectorStatus
visible disconnected status = if disconnected then none else some status

get-replaced :
    (status : ConnectorStatus) (disconnected : Bool) (k : String) (rows : List ConnectionRow)
    → get k (
        map
          (λ r.
            if has_id status.id r
            then record { status = status; disconnected = disconnected }
            else r)
          rows)
      ≡ (if status.id == k
          then if any (has_id status.id) rows then visible disconnected status else none
          else get k rows)
unfolding get
get-replaced status disconnected k [] = ground arith
get-replaced status true k (r ∷ rows) = elim (Bool-cases (r.status.id == status.id)) [
  | inl same ↦ ground (arith, get-replaced status true k rows, eq_iff r.status.id status.id)
  | inr other ↦
      ground (
        arith,
        get-replaced status true k rows,
        eq_iff r.status.id k,
        eq_iff status.id k,
        eq_refl k,
      )
]
get-replaced status false k (r ∷ rows) = elim (Bool-cases (r.status.id == status.id)) [
  | inl same ↦ ground (arith, get-replaced status false k rows, eq_iff r.status.id status.id)
  | inr other ↦
      ground (
        arith,
        get-replaced status false k rows,
        eq_iff r.status.id k,
        eq_iff status.id k,
        eq_refl k,
      )
]

get-added :
    (status : ConnectorStatus) (disconnected : Bool) (k : String) (rows : List ConnectionRow)
    → any (has_id status.id) rows ≡ false
    → get k (rows ++ record { status = status; disconnected = disconnected } ∷ [])
      ≡ (if status.id == k then visible disconnected status else get k rows)
unfolding get
get-added status disconnected k [] h = ground arith
get-added status disconnected k (r ∷ rows) h = ground (
  arith,
  get-added status disconnected k rows,
  eq_iff r.status.id status.id,
  eq_iff r.status.id k,
  eq_iff status.id k,
)

get-marked :
    (id k : String) (rows : List ConnectionRow)
    → get k (mark_disconnected id rows).0 ≡ (if id == k then none else get k rows)
unfolding get mark_disconnected
get-marked id k [] = ground arith
get-marked id k (r ∷ rows) =
    ground (arith, get-marked id k rows, eq_iff r.status.id id, eq_iff r.status.id k, eq_iff id k)

get-deleted :
    (id k : String) (rows : List ConnectionRow)
    → get k (delete id rows).0 ≡ (if id == k then none else get k rows)
unfolding get delete
get-deleted id k [] = ground arith
get-deleted id k (r ∷ rows) =
    ground (arith, get-deleted id k rows, eq_iff r.status.id id, eq_iff r.status.id k, eq_iff id k)

get-saved :
    (status : ConnectorStatus) (disconnected : Bool) (k : String) (rows : List ConnectionRow)
    → get k (save status disconnected rows)
      ≡ (if status.id == k then visible disconnected status else get k rows)
unfolding save
get-saved status disconnected k rows = elim (Bool-cases (any (has_id status.id) rows)) [
  | inl there ↦ ground (arith, get-replaced status disconnected k rows)
  | inr new ↦ ground (arith, get-added status disconnected k rows new)
]

pub get-apply :
    (op : StoreOperation) (k : String) (rows : List ConnectionRow)
    → get k (apply op rows) ≡ specify op (λ j. get j rows) k
unfolding apply upsert stage
get-apply (upserting status) k rows = get-saved status false k rows
get-apply (staging status) k rows = get-saved status true k rows
get-apply (disconnecting id) k rows = get-marked id k rows
get-apply (deleting id) k rows = get-deleted id k rows

specify_cong :
    (op : StoreOperation) (m n : Connections) (k : String)
    → m k ≡ n k
    → specify op m k ≡ specify op n k
specify_cong (upserting status) m n k h = ground arith
specify_cong (staging status) m n k h = ground arith
specify_cong (disconnecting id) m n k h = ground arith
specify_cong (deleting id) m n k h = ground arith

specify_all_cong :
    (ops : List StoreOperation) (m n : Connections) (k : String)
    → m k ≡ n k
    → specify_all ops m k ≡ specify_all ops n k
unfolding specify_all
specify_all_cong [] m n k h = h
specify_all_cong (op ∷ ops) m n k h =
    specify_all_cong ops (specify op m) (specify op n) k (specify_cong op m n k h)

-- The table implements the map: after any operations, `get` finds under every identifier what the
-- specification says of the same operations on what it found before. An upsert puts the
-- connection there; staging, disconnecting and deleting take it away; nothing else changes.
pub apply_all-refines :
    (ops : List StoreOperation) (rows : List ConnectionRow) (k : String)
    → get k (apply_all ops rows) ≡ specify_all ops (λ j. get j rows) k
unfolding apply_all specify_all
apply_all-refines [] rows k = refl
apply_all-refines (op ∷ ops) rows k =
    apply_all-refines ops (apply op rows) k
    ∙ specify_all_cong ops (λ j. get j (apply op rows)) (specify op (λ j. get j rows)) k
        (get-apply op k rows)
