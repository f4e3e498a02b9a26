-- ===== src/Runtime/Interfaces/Nodes.antt =====
-- `Check::node` and `validate` of src-tauri/src/runtime/interfaces.rs. The depth that a node may
-- still have below it takes the place of the depth that it has.
use desktop_ai_dashboard.Prelude.{
  ℕ, zero, suc, ◌+◌, ℤ, String, Bool, true, false, not, ◌&&◌, ◌||◌, Option, none, some, List, [],
  ◌∷◌, ◌==◌, nat_eq, string_eq, leb, ltb, leb_ℤ, contains, length, is_some, is_some_and,
  if◌then◌else◌, AppResult, ok, err, ok_or, reject_if, invalid,
}
use desktop_ai_dashboard.Prelude.Results
use desktop_ai_dashboard.Prelude.Acts.{Act, ◌>>=◌, ◌>>◌, lift, modify, require, state}
use desktop_ai_dashboard.Prelude.Maps.{get}
use desktop_ai_dashboard.Prelude.Texts.{all_chars}
use desktop_ai_dashboard.Prelude.Scans.{chars}
use desktop_ai_dashboard.Host.Json.{Value, member, at, as_str, as_u64}
use desktop_ai_dashboard.Runtime.Interfaces.{
  Dataset, object, text, id, array, integer, instant, parse_datasets,
}

-- The part of `Check` that changes.
pub record Tally : Type 0 where
  pub nodes : List String
  pub content : ℕ

abbrev pub done : AppResult (Unit {0})
done = ok tt

abbrev drop_value {ℓ} : {A : Type ℓ} → AppResult A → AppResult (Unit {0})
drop_value (ok a) = ok tt
drop_value (err e) = err e

abbrev is_upper : ℕ → Bool
is_upper c = leb b'A' c && leb c b'Z'

-- `field` of the branch for data: the name of a column, of this type if one is given.
unfoldable pub data_field : Dataset → Value → Option String → AppResult String
data_field dataset v wanted = Results.◌>>=◌ (id v) λ name.
    Results.◌>>=◌ (ok_or (get name dataset.fields) invalid) λ actual.
      Results.◌>>◌ (reject_if (is_some_and wanted (λ w. not (w == actual))) invalid) (ok name)

abbrev check_format : Value → AppResult (Unit {0})
check_format v =
    if is_some_and (as_str (at "format" v)) (λ f. f == "currency")
    then Results.◌>>=◌ (text (at "currency" v) 3)
        (λ s. reject_if (not (length (chars s) == 3) || not (all_chars is_upper s)) invalid)
    else reject_if
        (not (is_some_and (as_str (at "format" v)) (λ f. f == "number" || f == "percent"))
          || is_some (member "currency" v))
        invalid

unfoldable pub check_metric : Dataset → Value → AppResult (Unit {0})
check_metric dataset v =
    Results.◌>>◌
      (Results.◌>>◌
        (Results.◌>>◌
          (Results.◌>>◌
            (drop_value (
              object v
                ("id" ∷ "type" ∷ "label" ∷ "datasetId" ∷ "field" ∷ "format" ∷ "currency" ∷ [])))
            (drop_value (text (at "label" v) 160)))
          (drop_value (data_field dataset (at "field" v) (some "number"))))
        (reject_if (ltb 1 (length dataset.rows)) invalid))
      (check_format v)

-- The columns of a table, each field once; `used` holds those before.
unfoldable pub check_columns : Dataset → List String → List Value → AppResult (Unit {0})
check_columns dataset used [] = ok tt
check_columns dataset used (column ∷ columns) =
    let later : List String → AppResult (Unit {0}) =
      λ (fields : List String). check_columns dataset fields columns in
    Results.◌>>◌ (drop_value (object column ("field" ∷ "label" ∷ []))) (
      Results.◌>>=◌ (data_field dataset (at "field" column) none) λ name.
        Results.◌>>◌ (reject_if (contains used name) invalid)
          (Results.◌>>◌ (drop_value (text (at "label" column) 160)) (later (name ∷ used))))

unfoldable pub check_table : Dataset → Value → AppResult (Unit {0})
check_table dataset v =
    Results.◌>>◌ (drop_value (object v ("id" ∷ "type" ∷ "datasetId" ∷ "columns" ∷ []))) (
      Results.◌>>=◌ (array (at "columns" v) 12) λ columns.
        Results.◌>>◌ (reject_if (length columns == 0) invalid) (check_columns dataset [] columns))

abbrev pub is_container : String → Bool
is_container kind = kind == "stack" || kind == "grid" || kind == "card"

abbrev not_later : Option ℤ → ℤ → Bool
not_later none time = false
not_later (some previous) time = leb_ℤ time previous

abbrev line_kind : Option String → AppResult Bool
line_kind kind =
    if is_some_and kind (λ k. k == "line")
    then ok true
    else if is_some_and kind (λ k. k == "bar")
    then ok false
    else err invalid

module _ (nanoseconds : String → Option ℤ) where
  -- The points of a chart: the values on the axis, each once, and in a line each later than the last.
  unfoldable pub check_points :
      Bool → String → List String → Option ℤ → List Value → AppResult (Unit {0})
  check_points line x seen previous [] = ok tt
  check_points line x seen previous (row ∷ rows) =
      let later : List String → Option ℤ → AppResult (Unit {0}) =
        λ (s : List String) (p : Option ℤ). check_points line x s p rows in
      Results.◌>>=◌ (ok_or (as_str (at x row)) invalid) λ value.
        Results.◌>>◌ (reject_if (contains seen value) invalid) (
          if line
          then Results.◌>>=◌ (instant nanoseconds (at x row)) (λ time.
            Results.◌>>◌ (reject_if (not_later previous time) invalid)
              (later (value ∷ seen) (some time)))
          else later (value ∷ seen) previous)

  unfoldable pub check_chart : Dataset → Value → AppResult (Unit {0})
  check_chart dataset v =
      Results.◌>>◌
        (drop_value (
          object v
            ("id" ∷ "type" ∷ "kind" ∷ "datasetId" ∷ "xField" ∷ "yField" ∷ "label" ∷ "units" ∷ [])))
        (Results.◌>>=◌ (line_kind (as_str (at "kind" v))) λ line.
          Results.◌>>=◌
            (data_field dataset (at "xField" v) (some (if line then "timestamp" else "text")))
            λ x.
              Results.◌>>◌
                (Results.◌>>◌
                  (Results.◌>>◌ (drop_value (data_field dataset (at "yField" v) (some "number")))
                    (drop_value (text (at "label" v) 160)))
                  (drop_value (text (at "units" v) 80)))
                (check_points line x [] none dataset.rows))

  module _ (datasets : List (String × Dataset)) where
    abbrev pub check_data : String → Value → AppResult (Unit {0})
    check_data kind v = Results.◌>>=◌ (id (at "datasetId" v)) λ name.
        Results.◌>>=◌ (ok_or (get name datasets) invalid) λ dataset.
          if kind == "metric"
          then check_metric dataset v
          else if kind == "table"
          then check_table dataset v
          else check_chart dataset v

    -- `self.content += 1`.
    abbrev pub count_content : Act Tally (Unit {0})
    count_content t = (ok tt, record t { content = t.content + 1 })

    unfoldable pub admit_node : Value → Act Tally String
    admit_node v = do
      name ← lift (id (at "id" v))
      t ← state
      require (ltb (length t.nodes) 40 && not (contains t.nodes name)) invalid
      modify (λ t. record t { nodes = name ∷ t.nodes })
      lift (ok_or (as_str (at "type" v)) invalid)

    abbrev container_keys : String → List String
    container_keys kind =
        if kind == "grid"
        then "id" ∷ "type" ∷ "columns" ∷ "children" ∷ []
        else if kind == "card"
        then "id" ∷ "type" ∷ "title" ∷ "children" ∷ []
        else "id" ∷ "type" ∷ "children" ∷ []

    abbrev container_field : String → Value → AppResult (Unit {0})
    container_field kind v =
        if kind == "grid"
        then drop_value (integer (at "columns" v) 1 4)
        else if kind == "card"
        then drop_value (text (at "title" v) 160)
        else ok tt

    -- `for child in children { self.node(child, depth + 1)?; }`.
    unfoldable pub visit_all : (Value → Act Tally (Unit {0})) → List Value → Act Tally (Unit {0})
    visit_all visit [] t = (ok tt, t)
    visit_all visit (v ∷ vs) t = (do visit v; visit_all visit vs) t

    -- A container whose children are visited, if the depth allows it.
    unfoldable pub check_container :
        Option (Value → Act Tally (Unit {0})) → String → Value → Act Tally (Unit {0})
    check_container visit kind v = do
      lift (drop_value (object v (container_keys kind)))
      require (is_some visit) invalid
      lift (container_field kind v)
      children ← lift (array (at "children" v) 40)
      elim visit [ some f ↦ visit_all f children | none ↦ lift (err invalid) ]

    unfoldable pub check_leaf : String → Value → Act Tally (Unit {0})
    check_leaf kind v =
        if kind == "text"
        then (do
          lift (drop_value (object v ("id" ∷ "type" ∷ "text" ∷ [])))
          lift (drop_value (text (at "text" v) 2000))
          count_content)
        else if kind == "metric" || kind == "table" || kind == "chart"
        then (do count_content; lift (check_data kind v))
        else lift (err invalid)

    unfoldable pub check_node : Option (Value → Act Tally (Unit {0})) → Value → Act Tally (Unit {0})
    check_node visit v = do
      kind ← admit_node v
      (if is_container kind then check_container visit kind v else check_leaf kind v)
      t ← state
      require (leb t.content 12) invalid

    unfoldable pub node : ℕ → Value → Act Tally (Unit {0})
    node zero v = check_node none v
    node (suc left) v = check_node (some (node left)) v

  -- `json_len` is the length of the printed value.
  unfoldable pub validate : (Value → ℕ) → Value → AppResult (Unit {0})
  validate json_len spec =
      Results.◌>>◌
        (Results.◌>>◌
          (Results.◌>>◌ (reject_if (ltb 65536 (json_len spec)) invalid)
            (drop_value (object spec ("schemaVersion" ∷ "kind" ∷ "root" ∷ "datasets" ∷ []))))
          (reject_if
            (not (is_some_and (as_u64 (at "schemaVersion" spec)) (λ n. n == 1))
              || not (is_some_and (as_str (at "kind" spec)) (λ k. k == "components")))
            invalid))
        (Results.◌>>=◌ (array (at "datasets" spec) 12) λ ds.
          Results.◌>>=◌ (parse_datasets nanoseconds [] ds)
            λ datasets. (node datasets 3 (at "root" spec) (record { nodes = []; content = 0 })).0)
