-- ===== src/Prelude/Scans.antt =====
-- Searching and splitting of texts, on the list of their code points: `str::contains`, `split`,
-- `split_once`, `trim_matches`, `eq_ignore_ascii_case` as the Rust sources use them.
use Prim.Native.Nat.{ℕ, ◌+◌}
use Prim.Native.Char.{code}
use Prim.Native.String.{String}
use mathlib.Core.Path.{◌≡◌, refl}
use mathlib.Core.Bool.{Bool, true, false, ◌&&◌, ◌||◌}
use mathlib.Core.Option.{Option, none, some}
use mathlib.Core.List.{List, [], ◌∷◌}
use native.Mathlib.Omega.{arith}
use desktop_ai_dashboard.Prelude.Tests.{leb, if◌then◌else◌, ◌==◌, nat_eq}

-- `s.chars()`.
unfoldable pub chars : String → List ℕ
chars String.[] = []
chars (String.◌∷◌ c s) = code c ∷ chars s

-- What follows a prefix.
unfoldable pub strip_prefix : List ℕ → List ℕ → Option (List ℕ)
strip_prefix [] s = some s
strip_prefix (p ∷ ps) [] = none
strip_prefix (p ∷ ps) (c ∷ s) = let rest = strip_prefix ps s in if p == c then rest else none

abbrev pub starts_with : List ℕ → List ℕ → Bool
starts_with p s = elim (strip_prefix p s) [ some rest ↦ true | none ↦ false ]

-- `s.contains(pattern)`.
unfoldable pub has_infix : List ℕ → List ℕ → Bool
has_infix p [] = starts_with p []
has_infix p (c ∷ s) = starts_with p (c ∷ s) || has_infix p s

abbrev keep_first : ℕ → Option (List ℕ × List ℕ) → Option (List ℕ × List ℕ)
keep_first c none = none
keep_first c (some (a, b)) = some (c ∷ a, b)

-- `s.split_once(pattern)`.
unfoldable pub split_once : List ℕ → List ℕ → Option (List ℕ × List ℕ)
split_once p [] = elim (strip_prefix p []) [ some rest ↦ some ([], rest) | none ↦ none ]
split_once p (c ∷ s) =
    let later = keep_first c (split_once p s) in
    elim (strip_prefix p (c ∷ s)) [ some rest ↦ some ([], rest) | none ↦ later ]

-- `s.split(test).next()`: all before the first code point that passes the test.
unfoldable pub until : (ℕ → Bool) → List ℕ → List ℕ
until p [] = []
until p (c ∷ s) = let rest = until p s in if p c then [] else c ∷ rest

abbrev push_first : ℕ → List (List ℕ) → List (List ℕ)
push_first c [] = (c ∷ []) ∷ []
push_first c (part ∷ parts) = (c ∷ part) ∷ parts

-- `s.split(test)`.
unfoldable pub split : (ℕ → Bool) → List ℕ → List (List ℕ)
split p [] = [] ∷ []
split p (c ∷ s) = let parts = split p s in if p c then [] ∷ parts else push_first c parts

unfoldable pub trim_start_matches : (ℕ → Bool) → List ℕ → List ℕ
trim_start_matches p [] = []
trim_start_matches p (c ∷ s) = let rest = trim_start_matches p s in if p c then rest else c ∷ s

abbrev drop_if : (ℕ → Bool) → ℕ → List ℕ → List ℕ
drop_if p c [] = if p c then [] else c ∷ []
drop_if p c (d ∷ s) = c ∷ d ∷ s

unfoldable pub trim_end_matches : (ℕ → Bool) → List ℕ → List ℕ
trim_end_matches p [] = []
trim_end_matches p (c ∷ s) = drop_if p c (trim_end_matches p s)

unfoldable pub trim_matches : (ℕ → Bool) → List ℕ → List ℕ
unfolding trim_start_matches trim_end_matches
trim_matches p s = trim_end_matches p (trim_start_matches p s)

-- `char::to_ascii_lowercase`, on a text.
abbrev pub lower : ℕ → ℕ
lower c = if leb b'A' c && leb c b'Z' then c + 32 else c

unfoldable pub to_ascii_lowercase : List ℕ → List ℕ
to_ascii_lowercase [] = []
to_ascii_lowercase (c ∷ s) = lower c ∷ to_ascii_lowercase s

unfoldable pub same_chars : List ℕ → List ℕ → Bool
same_chars [] [] = true
same_chars [] (d ∷ t) = false
same_chars (c ∷ s) [] = false
same_chars (c ∷ s) (d ∷ t) = c == d && same_chars s t

abbrev pub eq_ignore_ascii_case : List ℕ → List ℕ → Bool
eq_ignore_ascii_case s t = same_chars (to_ascii_lowercase s) (to_ascii_lowercase t)

pub same_chars_iff_left : (s t : List ℕ) → same_chars s t ≡ true → s ≡ t
unfolding same_chars
same_chars_iff_left [] [] h = refl
same_chars_iff_left [] (d ∷ t) h = cc
same_chars_iff_left (c ∷ s) [] h = cc
same_chars_iff_left (c ∷ s) (d ∷ t) h = ground (arith, same_chars_iff_left s t)
