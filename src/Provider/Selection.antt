-- ===== src/Provider/Selection.antt =====
-- The model that `selected_model` of src-tauri/src/provider.rs chooses.
use desktop_ai_dashboard.Prelude.{
  ℕ, String, Bool, true, false, not, Option, none, some, List, ◌≡◌, nat_eq, string_eq, Memᴰ,
}
use desktop_ai_dashboard.Provider.{opus_version, is_newer}

abbrev Choice : Type 0
Choice = Option (String × (ℕ × ℕ))

-- Whether a version is above that of a choice; any is above no choice.
abbrev pub above : Choice → Option (ℕ × ℕ) → Bool
above o none = false
above none (some w) = true
above (some (id, v)) (some w) = is_newer w v

-- Whether the second choice is not older than the first.
abbrev holds : Choice → Choice → Bool
holds none b = true
holds (some a) none = false
holds (some (i, v)) (some (j, w)) = not (is_newer v w)

-- A choice is a model of the list, with its version.
abbrev Comes : Choice → List String → Type 0
Comes none ids = Unit
Comes (some (id, v)) ids = Memᴰ id ids × (opus_version id ≡ some v)

-- A model, as a choice if it has a version.
abbrev pub with_version : String → Option (ℕ × ℕ) → Choice
with_version m none = none
with_version m (some v) = some (m, v)

unfoldable pub versioned : String → Choice
versioned m = with_version m (opus_version m)
