-- ===== src/Runtime/Interfaces/Trees.antt =====
-- What a presentation that src-tauri/src/runtime/interfaces.rs accepts looks like.
use desktop_ai_dashboard.Prelude.Maps.{get}
use desktop_ai_dashboard.Prelude.{
  ◌+◌, Bool, true, ◌||◌, ◌==◌, is_some_and, if◌then◌else◌, eq_iff, sym, ◌∙◌, ℕ, zero, suc, ◌≤◌, ℤ,
  String, false, Option, none, some, List, [], ◌∷◌, ◌≡◌, ◌⊎◌, inl, inr, ap, nat_eq, string_eq, leb,
  contains, length, arith, All, AppResult, ok, err, invalid, Bool-cases, Option-cases,
  AppResult-cases,
}
use desktop_ai_dashboard.Prelude.Acts.{Act, ◌>>=◌, after, after-eq-ok, require, state}
use desktop_ai_dashboard.Host.Json.{Value, at, as_str, as_array}
use desktop_ai_dashboard.Runtime.Interfaces.{Dataset, text, array, id}
use desktop_ai_dashboard.Runtime.Interfaces.Nodes.{
  check_data, Tally, admit_node, visit_all, check_container, check_leaf, is_container, check_node,
  node,
}

abbrev AreDistinct : List String → Type 0
AreDistinct [] = Unit
AreDistinct (s ∷ ss) = (contains ss s ≡ false) × AreDistinct ss

abbrev pub IsSmall : Tally → Type 0
IsSmall t = AreDistinct t.nodes × (length t.nodes ≤ 40) × (t.content ≤ 12)

-- One value after the other.
abbrev pub fold_values : (Value → Tally → Tally) → List Value → Tally → Tally
fold_values f [] t = t
fold_values f (v ∷ vs) t = fold_values f vs (f v t)

abbrev pub values_of : Option (List Value) → List Value
values_of none = []
values_of (some vs) = vs

abbrev pub add_name : Option String → List String → List String
add_name none names = names
add_name (some name) names = name ∷ names

abbrev pub holds_children : Value → Bool
holds_children v =
    is_some_and (as_str (at "type" v)) (λ k. k == "stack" || k == "grid" || k == "card")

-- What a tree adds to a tally, down to so many levels of containers: its identifiers, and one for
-- each node that is no container.
abbrev pub tallied : ℕ → Value → Tally → Tally
tallied zero v t = record { nodes = add_name (as_str (at "id" v)) t.nodes; content = t.content + 1 }
tallied (suc n) v t =
    let named = add_name (as_str (at "id" v)) t.nodes in
    if holds_children v
    then fold_values (tallied n) (values_of (as_array (at "children" v)))
        (record { nodes = named; content = t.content })
    else record { nodes = named; content = t.content + 1 }

-- A text, or a metric, table or chart that names one of the datasets.
abbrev pub IsLeaf : List (String × Dataset) → String → Value → Type 0
IsLeaf datasets kind v =
    (kind ≡ "text")
    ⊎ (((kind ≡ "metric") ⊎ ((kind ≡ "table") ⊎ (kind ≡ "chart")))
        × (name : String) × (dataset : Dataset) × (as_str (at "datasetId" v) ≡ some name)
        × (get name datasets ≡ some dataset))

-- A leaf, or a container with at most 40 children, with this many levels of containers at most.
abbrev pub Within : List (String × Dataset) → ℕ → Value → Type 0
Within datasets zero v =
    (kind : String) × (as_str (at "type" v) ≡ some kind) × IsLeaf datasets kind v
Within datasets (suc n) v =
    (kind : String) × (as_str (at "type" v) ≡ some kind)
    × (IsLeaf datasets kind v
        ⊎ (((kind ≡ "stack") ⊎ ((kind ≡ "grid") ⊎ (kind ≡ "card")))
            × (vs : List Value) × (as_array (at "children" v) ≡ some vs)
            × (length vs ≤ 40)
            × All (Within datasets n) vs))

id-as_str : (v : Value) (name : String) → id v ≡ ok name → as_str v ≡ some name
unfolding id text
id-as_str v name h = elim (Option-cases (as_str v)) [
  | inl e ↦ absurd (ground arith)
  | inr (s, e) ↦ ground arith
]

array-as_array :
    (v : Value) (max : ℕ) (vs : List Value)
    → array v max ≡ ok vs
    → (as_array v ≡ some vs) × (length vs ≤ max)
unfolding array
array-as_array v max vs h = elim (Option-cases (as_array v)) [
  | inl e ↦ absurd (ground arith)
  | inr (a, e) ↦ ground arith
]

module _ (nanoseconds : String → Option ℤ) (datasets : List (String × Dataset)) where
  visit_all-All :
      (f : Value → Act Tally (Unit {0})) (g : Value → Tally → Tally) (P : Value → Type 0)
      → ((v : Value) (t u : Tally) → IsSmall t → f v t ≡ (ok tt, u) → P v × (u ≡ g v t) × IsSmall u)
      → (vs : List Value) (t u : Tally) → IsSmall t
      → visit_all nanoseconds datasets f vs t ≡ (ok tt, u)
      → All P vs × (u ≡ fold_values g vs t) × IsSmall u
  unfolding visit_all
  visit_all-All f g P keeps [] t u s h =
      let same : t ≡ u = ap (λ p. p.1) h in (tt, sym same, rw (← same) s)
  visit_all-All f g P keeps (v ∷ vs) t u s h =
      let (done, w, p, q) = after-eq-ok (f v t) _ h in
      let (a, e, b) = keeps v t w s p in
      let (c, r, d) = visit_all-All f g P keeps vs w u b q in
      ((a, c), r ∙ ap (fold_values g vs) e, d)

  admit_node-IsSmall :
      (v : Value) (kind : String) (t u : Tally)
      → IsSmall t
      → admit_node nanoseconds datasets v t ≡ (ok kind, u)
      → (as_str (at "type" v) ≡ some kind)
        × (u ≡ record { nodes = add_name (as_str (at "id" v)) t.nodes; content = t.content })
        × IsSmall u
  unfolding admit_node
  admit_node-IsSmall v kind t u s h = elim (AppResult-cases (id (at "id" v))) [
    | inr (e, p) ↦ absurd (ground arith)
    | inl (name, p) ↦
        let known = id-as_str (at "id" v) name p in
        elim (Option-cases (as_str (at "type" v))) [
          | inl q ↦ absurd (ground arith)
          | inr (k, q) ↦ (ground arith, ground arith, ground arith)
        ]
  ]

  check_data-names :
      (kind : String) (v : Value)
      → check_data nanoseconds datasets kind v ≡ ok tt
      → (name : String) × (dataset : Dataset) × (as_str (at "datasetId" v) ≡ some name)
        × (get name datasets ≡ some dataset)
  check_data-names kind v h = elim (AppResult-cases (id (at "datasetId" v))) [
    | inr (e, p) ↦ absurd (ground arith)
    | inl (name, p) ↦ elim (Option-cases (get name datasets)) [
      | inl q ↦ absurd (ground arith)
      | inr (dataset, q) ↦ (name, dataset, id-as_str (at "datasetId" v) name p, q)
    ]
  ]

  check_leaf-IsLeaf :
      (kind : String) (v : Value) (t u : Tally)
      → check_leaf nanoseconds datasets kind v t ≡ (ok tt, u)
      → IsLeaf datasets kind v × (u ≡ record t { content = t.content + 1 })
  unfolding check_leaf
  check_leaf-IsLeaf kind v t u h = elim (Bool-cases (kind == "text")) [
    | inl k ↦ (inl (ground (arith, eq_iff kind "text")), ground arith)
    | inr k ↦ elim (Bool-cases (kind == "metric" || kind == "table" || kind == "chart")) [
      | inr d ↦ absurd (ground arith)
      | inl d ↦
          let (name, dataset, given, known) = check_data-names kind v (ground arith) in
          (
            inr (
              ground (arith, eq_iff kind "metric", eq_iff kind "table", eq_iff kind "chart"),
              name,
              dataset,
              given,
              known,
            ),
            ground arith,
          )
    ]
  ]

  check_container-All :
      (n : ℕ) (kind : String) (v : Value) (t u : Tally)
      → ((w : Value) (x y : Tally)
          → IsSmall x
          → node nanoseconds datasets n w x ≡ (ok tt, y)
          → Within datasets n w × (y ≡ tallied n w x) × IsSmall y)
      → IsSmall t
      → check_container nanoseconds datasets (some (node nanoseconds datasets n)) kind v t
        ≡ (ok tt, u)
      → ((vs : List Value) × (as_array (at "children" v) ≡ some vs)
          × (length vs ≤ 40)
          × All (Within datasets n) vs)
        × (u ≡ fold_values (tallied n) (values_of (as_array (at "children" v))) t)
        × IsSmall u
  unfolding check_container
  check_container-All n kind v t u keeps s h = elim (AppResult-cases (array (at "children" v) 40)) [
    | inr (e, p) ↦ absurd (ground arith)
    | inl (vs, p) ↦
        let f = node nanoseconds datasets n in
        let visited : visit_all nanoseconds datasets f vs t ≡ (ok tt, u) = ground arith in
        let (all, e, small) =
          visit_all-All f (tallied n) (Within datasets n) keeps vs t u s visited in
        let (children, few) = array-as_array (at "children" v) 40 vs p in
        ((vs, children, few, all), rw children e, small)
  ]

  check_container-none :
      (kind : String) (v : Value) (t u : Tally)
      → ¬ (check_container nanoseconds datasets none kind v t ≡ (ok tt, u))
  unfolding check_container
  check_container-none kind v t u h = ground arith

  within_limit :
      (r : AppResult (Unit {0}) × Tally) (u : Tally)
      → after r (λ done. state >>= λ (t : Tally). require (leb t.content 12) invalid) ≡ (ok tt, u)
      → (r ≡ (ok tt, u)) × (u.content ≤ 12)
  within_limit (ok tt, x) u h = ground arith
  within_limit (err e, x) u h = absurd (ground arith)

  -- A node that is accepted stands within the levels that are left, and is tallied.
  pub node-Within :
      (left : ℕ) (v : Value) (t u : Tally)
      → IsSmall t
      → node nanoseconds datasets left v t ≡ (ok tt, u)
      → Within datasets left v × (u ≡ tallied left v t) × IsSmall u
  unfolding node check_node
  node-Within zero v t u s h =
      let (kind, w, p, h) = after-eq-ok (admit_node nanoseconds datasets v t) _ h in
      let (named, added, small) = admit_node-IsSmall v kind t w s p in
      elim (Bool-cases (is_container kind)) [
        | inl c ↦
            let (q, few) =
              within_limit (check_container nanoseconds datasets none kind v w) u (rw c at h) in
            absurd (check_container-none kind v w u q)
        | inr c ↦
            let (q, few) = within_limit (check_leaf nanoseconds datasets kind v w) u (rw c at h) in
            let (leaf, e) = check_leaf-IsLeaf kind v w u q in
            ((kind, named, leaf), ground arith, ground arith)
      ]
  node-Within (suc n) v t u s h =
      let (kind, w, p, h) = after-eq-ok (admit_node nanoseconds datasets v t) _ h in
      let (named, added, small) = admit_node-IsSmall v kind t w s p in
      elim (Bool-cases (is_container kind)) [
        | inl c ↦
            let f = node nanoseconds datasets n in
            let (q, few) =
              within_limit (check_container nanoseconds datasets (some f) kind v w) u (rw c at h) in
            let (children, e, tally) = check_container-All n kind v w u (node-Within n) small q in
            let (vs, list, few_, all) = children in
            let known : holds_children v ≡ true = ground arith in
            (
              (
                kind,
                named,
                inr (
                  ground (arith, eq_iff kind "stack", eq_iff kind "grid", eq_iff kind "card"),
                  vs,
                  list,
                  few_,
                  all,
                ),
              ),
              rw known (rw (← added) e),
              tally,
            )
        | inr c ↦
            let (q, few) = within_limit (check_leaf nanoseconds datasets kind v w) u (rw c at h) in
            let (leaf, e) = check_leaf-IsLeaf kind v w u q in
            let known : holds_children v ≡ false = ground arith in
            ((kind, named, inl leaf), rw known (ground arith), ground arith)
      ]
