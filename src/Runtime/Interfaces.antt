-- ===== src/Runtime/Interfaces.antt =====
-- The validation of shared presentations: src-tauri/src/runtime/interfaces.rs. The length of the
-- printed JSON and the instants, in nanoseconds, are what the crates answer.
pub mod Nodes
pub mod Trees
use desktop_ai_dashboard.Prelude.{
  ℕ, ℤ, ◌≤◌, String, Bool, true, false, not, ◌&&◌, ◌||◌, Option, none, some, List, [], ◌∷◌, ◌==◌,
  nat_eq, string_eq, leb, ltb, any, all, contains, length, is_some, is_some_and, if◌then◌else◌,
  AppError, AppResult, ok, err, reject_if, ok_or, invalid, ◌>>=◌, ◌>>◌,
}
use desktop_ai_dashboard.Prelude.Maps.{get, contains_key}
use desktop_ai_dashboard.Prelude.Texts.{all_chars, is_alphanumeric, is_control}
use desktop_ai_dashboard.Prelude.Scans.{chars}
use desktop_ai_dashboard.Host.Json
use desktop_ai_dashboard.Host.Json.{
  Value, Fields, Number, unsigned, negative, float, member, at, as_str, as_array, as_u64, keys,
  is_null,
}

unfoldable pub forbidden : String → Bool
forbidden s = s == "__proto__" || s == "constructor" || s == "prototype"

unfoldable pub object : Value → List String → AppResult (List String)
object (Json.object fields) allowed =
    if any (λ k. not (contains allowed k) || forbidden k) (keys fields)
    then err invalid
    else ok (keys fields)
object _ allowed = err invalid

abbrev is_odd_control : ℕ → Bool
is_odd_control c = is_control c && not (c == 10 || c == 13 || c == 9)

unfoldable pub text : Value → ℕ → AppResult String
text v max = do
  s ← ok_or (as_str v) invalid
  reject_if (ltb max (length (chars s)) || any is_odd_control (chars s)) invalid
  ok s

abbrev starts_well : List ℕ → Bool
starts_well [] = false
starts_well (c ∷ s) = is_alphanumeric c

abbrev is_id_char : ℕ → Bool
is_id_char c = is_alphanumeric c || c == b'_' || c == b'.' || c == b'-'

unfoldable pub id : Value → AppResult String
id v = do
  s ← text v 80
  reject_if (s == "" || forbidden s || not (starts_well (chars s)) || not (all_chars is_id_char s))
      invalid
  ok s

unfoldable pub array : Value → ℕ → AppResult (List Value)
array v max = do a ← ok_or (as_array v) invalid; reject_if (ltb max (length a)) invalid; ok a

unfoldable pub integer : Value → ℕ → ℕ → AppResult ℕ
integer v low high = do
  n ← ok_or (as_u64 v) invalid
  reject_if (ltb n low || ltb high n) invalid
  ok n

abbrev ends_in_z : List ℕ → Bool
ends_in_z [] = false
ends_in_z (c ∷ []) = c == b'Z'
ends_in_z (c ∷ (d ∷ s)) = ends_in_z (d ∷ s)

unfoldable pub instant : (String → Option ℤ) → Value → AppResult ℤ
instant nanoseconds v = do
  s ← text v 40
  reject_if (not (ends_in_z (chars s))) invalid
  ok_or (nanoseconds s) invalid

-- `as_f64` is finite and at most 1e12 in absolute value.
abbrev is_small : Value → Bool
is_small (Json.number (unsigned n)) = leb n 1_000_000_000_000
is_small (Json.number (negative n)) = leb n 1_000_000_000_000
is_small (Json.number (float within)) = within 1_000_000_000_000
is_small _ = false

pub record Dataset : Type 0 where
  pub fields : List (String × String)
  pub rows : List Value

-- `for x in xs { f(x)?; }`.
abbrev pub each : (Value → AppResult (Unit {0})) → List Value → AppResult (Unit {0})
each f [] = ok tt
each f (x ∷ xs) = let rest = each f xs in f x >> rest

-- The columns of a dataset, each name once; `fields` holds those before.
unfoldable pub parse_columns :
    List (String × String) → List Value → AppResult (List (String × String))
parse_columns fields [] = ok fields
parse_columns fields (column ∷ columns) =
    let later : List (String × String) → AppResult (List (String × String)) =
      λ (fs : List (String × String)). parse_columns fs columns in
    do
      _ ← object column ("id" ∷ "type" ∷ [])
      name ← id (at "id" column)
      kind ← text (at "type" column) 12
      reject_if
          (not (kind == "text" || kind == "number" || kind == "timestamp")
            || contains_key name fields)
          invalid
      later ((name, kind) ∷ fields)

module _ (nanoseconds : String → Option ℤ) where
  abbrev check_cell : String → Value → AppResult (Unit {0})
  check_cell kind v =
      if is_null v
      then ok tt
      else if kind == "number"
      then reject_if (not (is_small v)) invalid
      else if kind == "timestamp"
      then (do _ ← instant nanoseconds v; ok tt)
      else (do _ ← text v 2000; ok tt)

  abbrev check_cells : Value → List (String × String) → AppResult (Unit {0})
  check_cells row [] = ok tt
  check_cells row ((name, kind) ∷ fields) =
      let rest = check_cells row fields in check_cell kind (at name row) >> rest

  unfoldable pub check_row : List (String × String) → Value → AppResult (Unit {0})
  check_row fields (Json.object entries) = do
    reject_if
        (not (length (keys entries) == length fields)
          || any (λ k. not (contains_key k fields)) (keys entries))
        invalid
    check_cells (Json.object entries) fields
  check_row fields _ = err invalid

  unfoldable pub parse_dataset : Value → AppResult (String × Dataset)
  parse_dataset d = do
    _ ← object d ("id" ∷ "columns" ∷ "rows" ∷ [])
    name ← id (at "id" d)
    columns ← array (at "columns" d) 12
    fields ← parse_columns [] columns
    reject_if (length fields == 0) invalid
    rows ← array (at "rows" d) 100
    each (check_row fields) rows
    ok (name, record { fields = fields; rows = rows })

  -- Each dataset under its name, each name once; `datasets` holds those before.
  unfoldable pub parse_datasets :
      List (String × Dataset) → List Value → AppResult (List (String × Dataset))
  parse_datasets datasets [] = ok datasets
  parse_datasets datasets (d ∷ ds) =
      let later : List (String × Dataset) → AppResult (List (String × Dataset)) =
        λ (known : List (String × Dataset)). parse_datasets known ds in
      do
        (name, dataset) ← parse_dataset d
        reject_if (contains_key name datasets) invalid
        later ((name, dataset) ∷ datasets)
