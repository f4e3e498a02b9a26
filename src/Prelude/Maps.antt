-- ===== src/Prelude/Maps.antt =====
-- `HashMap<String, V>` as an association list: a later entry of a key is never read.
use Prim.Native.Nat.{suc, ◌≤◌}
use Prim.Native.String.{String}
use mathlib.Core.Path.{◌≡◌, refl}
use mathlib.Core.Logic.{inl, inr}
use mathlib.Core.Bool.{Bool, true}
use mathlib.Core.Option.{Option, none, some}
use mathlib.Core.List.{List, [], ◌∷◌, Memᴰ}
use native.Mathlib.Omega.{arith}
use text.Mathlib.TextEquality.{eq_iff}
use desktop_ai_dashboard.Prelude.Tests.{if◌then◌else◌, ◌==◌, string_eq, is_some, Bool-cases}
use desktop_ai_dashboard.Prelude.Lists.{length, retain}

module _ {ℓ} {V : Type ℓ} where
  unfoldable pub get : String → List (String × V) → Option V
  get k [] = none
  get k ((j, v) ∷ m) = if j == k then some v else get k m

  abbrev pub contains_key : String → List (String × V) → Bool
  contains_key k m = is_some (get k m)

  unfoldable pub remove : String → List (String × V) → List (String × V)
  remove k [] = []
  remove k ((j, v) ∷ m) = if j == k then remove k m else (j, v) ∷ remove k m

  unfoldable pub insert : String → V → List (String × V) → List (String × V)
  insert k v m = (k, v) ∷ remove k m

  -- Each key has one entry.
  abbrev pub Unique : List (String × V) → Type ℓ
  Unique [] = Unit
  Unique ((k, v) ∷ m) = (get k m ≡ none) × Unique m

module _ {ℓ} {V : Type ℓ} where
  pub get-remove :
      (k j : String) (m : List (String × V))
      → get j (remove k m) ≡ (if k == j then none else get j m)
  unfolding get remove
  get-remove k j [] = elim (Bool-cases (k == j)) [ inl e ↦ rw e | inr e ↦ rw e ]
  get-remove k j ((i, w) ∷ m) = ground (arith, eq_iff k j, eq_iff i k, eq_iff i j, get-remove k j m)

  pub get-insert :
      (k j : String) (v : V) (m : List (String × V))
      → get j (insert k v m) ≡ (if k == j then some v else get j m)
  unfolding insert get
  get-insert k j v m = ground (arith, get-remove k j m)

  pub length-remove-le : (k : String) (m : List (String × V)) → length (remove k m) ≤ length m
  unfolding remove
  length-remove-le k [] = omega arith
  length-remove-le k ((j, v) ∷ m) = ground (arith, length-remove-le k m)

  pub length-insert-le :
      (k : String) (v : V) (m : List (String × V)) → length (insert k v m) ≤ suc (length m)
  unfolding insert
  length-insert-le k v m = omega (arith, length-remove-le k m)

  pub Unique-remove : (k : String) (m : List (String × V)) → Unique m → Unique (remove k m)
  unfolding remove
  Unique-remove k [] u = u
  Unique-remove k ((j, v) ∷ m) u =
      ground (arith, Unique-remove k m, get-remove k j m, eq_iff j k, eq_iff k j)

  pub Unique-insert :
      (k : String) (v : V) (m : List (String × V)) → Unique m → Unique (insert k v m)
  unfolding insert
  Unique-insert k v m u = ground (arith, get-remove k k m, eq_iff k k, Unique-remove k m)

  pub get-retain-none :
      (p : String × V → Bool) (k : String) (m : List (String × V))
      → get k m ≡ none
      → get k (retain p m) ≡ none
  unfolding get
  get-retain-none p k [] h = refl
  get-retain-none p k ((j, v) ∷ m) h = ground (arith, get-retain-none p k m)

  pub Unique-retain :
      (p : String × V → Bool) (m : List (String × V)) → Unique m → Unique (retain p m)
  Unique-retain p [] u = u
  Unique-retain p ((j, v) ∷ m) u = ground (arith, Unique-retain p m, get-retain-none p j m)

  -- What `retain` keeps was there, and passes the test.
  pub get-retain-some :
      (p : String × V → Bool) (k : String) (m : List (String × V)) {v : V}
      → Unique m
      → get k (retain p m) ≡ some v
      → (get k m ≡ some v) × (p (k, v) ≡ true)
  unfolding get
  get-retain-some p k [] u h = cc
  get-retain-some p k ((j, w) ∷ m) {v} u h =
      ground (arith, eq_iff j k, get-retain-none p j m, get-retain-some p k m {v = v})

  pub get-retain :
      (p : String × V → Bool) (k : String) (m : List (String × V)) {v : V}
      → get k m ≡ some v
      → p (k, v) ≡ true
      → get k (retain p m) ≡ some v
  unfolding get
  get-retain p k [] h t = cc
  get-retain p k ((j, w) ∷ m) {v} h t = ground (arith, eq_iff j k, get-retain p k m {v = v})

  pub get→Memᴰ : (k : String) (m : List (String × V)) {v : V} → get k m ≡ some v → Memᴰ (k, v) m
  unfolding get
  get→Memᴰ k [] h = cc
  get→Memᴰ k ((j, w) ∷ m) {v} h = elim (Bool-cases (j == k)) [
    | inl here ↦ Memᴰ.head (ground (arith, eq_iff j k))
    | inr past ↦ Memᴰ.tail (get→Memᴰ k m (ground arith))
  ]

  pub Memᴰ→get :
      (k : String) (m : List (String × V)) {v : V} → Unique m → Memᴰ (k, v) m → get k m ≡ some v
  unfolding get
  Memᴰ→get k [] u h = elim h [ ]
  Memᴰ→get k ((j, w) ∷ m) u (Memᴰ.head e) = ground (arith, eq_iff j k)
  Memᴰ→get k ((j, w) ∷ m) {v} (n, u) (Memᴰ.tail t) =
      let found = Memᴰ→get k m {v = v} u t in
      elim (Bool-cases (j == k)) [
        | inl here ↦ let e : j ≡ k = (eq_iff j k).0 here in cc
        | inr past ↦ rw past found
      ]
