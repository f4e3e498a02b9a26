-- ===== src/Connectors/Loopback/Lines.antt =====
-- The lines of a request as src-tauri/src/connectors/loopback.rs splits them.
use Prim.Native.String.{count}
use text.Mathlib.TextLemmas.{length-cons}
use desktop_ai_dashboard.Prelude.{
  ℕ, zero, suc, ◌+◌, ◌≤◌, String, some, List, [], ◌∷◌, ◌≡◌, inl, inr, nat_eq, length, arith,
  Option-cases,
}
use desktop_ai_dashboard.Connectors.Loopback.Requests.{split_at, strip_codes, lines_of, crlf}

strip_codes-shorter :
    (ps : List ℕ) (s rest : String)
    → strip_codes ps s ≡ some rest
    → count rest + length ps ≤ count s
unfolding strip_codes
strip_codes-shorter [] s rest h = ground arith
strip_codes-shorter (p ∷ ps) String.[] rest h = cc
strip_codes-shorter (p ∷ ps) (String.◌∷◌ d s) rest h =
    ground (arith, strip_codes-shorter ps s rest, length-cons d s)

split_at-shorter :
    (s line rest : String) → split_at crlf s ≡ some (line, rest) → count rest + 2 ≤ count s
unfolding split_at
split_at-shorter String.[] line rest h = elim (Option-cases (strip_codes crlf "")) [
  | inl e ↦ absurd (ground arith)
  | inr (r, e) ↦ ground (arith, strip_codes-shorter crlf "" r e)
]
split_at-shorter (String.◌∷◌ d s) line rest h =
    elim (Option-cases (strip_codes crlf (String.◌∷◌ d s))) [
      | inl e ↦ elim (Option-cases (split_at crlf s)) [
        | inl f ↦ absurd (ground arith)
        | inr ((l, r), f) ↦ ground (arith, split_at-shorter s l r f, length-cons d s)
      ]
      | inr (r, e) ↦ ground (arith, strip_codes-shorter crlf (String.◌∷◌ d s) r e)
    ]

-- More fuel than the length of the text finds no more lines.
pub lines_of-enough :
    (fuel : ℕ) (s : String) → count s ≤ fuel → lines_of (suc fuel) s ≡ lines_of fuel s
lines_of-enough zero s h = elim (Option-cases (split_at crlf s)) [
  | inl e ↦ ground arith
  | inr ((line, rest), e) ↦ absurd (ground (arith, split_at-shorter s line rest e))
]
lines_of-enough (suc fuel) s h = elim (Option-cases (split_at crlf s)) [
  | inl e ↦ ground arith
  | inr ((line, rest), e) ↦
      ground (arith, lines_of-enough fuel rest, split_at-shorter s line rest e)
]
