-- ===== src/Browser/Framing.antt =====
-- The framing of protocol messages in src-tauri/src/browser/chromium.rs.
use Prim.Native.Char.{code}
use mathlib.Core.List.{append_assoc, append-nil}
use desktop_ai_dashboard.Prelude.{
  ◌∙◌, ℕ, String, Bool, true, false, not, ◌&&◌, List, [], ◌∷◌, ◌++◌, map, ◌≡◌, ◌≢◌, refl, ap, ◌==◌,
  nat_eq, string_eq, arith, all, All,
}
use desktop_ai_dashboard.Prelude.Texts.{bytes, utf8, all_chars}
use desktop_ai_dashboard.Browser.Chromium.{frame, split_from, split_frames}

-- A message without NUL that is not empty.
abbrev pub IsMessage : String → Type 0
IsMessage m = (m ≢ "") × (all_chars (λ c. not (c == 0)) m ≡ true)

abbrev pub frames : List String → List ℕ
frames [] = []
frames (m ∷ ms) = frame m ++ frames ms

abbrev is_body : List ℕ → Bool
is_body s = all (λ b. not (b == 0)) s

all-append : (p : ℕ → Bool) (a b : List ℕ) → all p (a ++ b) ≡ (all p a && all p b)
all-append p [] b = refl
all-append p (x ∷ a) b = ground (arith, all-append p a b)

utf8-is_body : (c : ℕ) → (c == 0) ≡ false → is_body (utf8 c) ≡ true
unfolding utf8
utf8-is_body c h = ground arith

bytes-is_body : (m : String) → all_chars (λ c. not (c == 0)) m ≡ true → is_body (bytes m) ≡ true
unfolding bytes
bytes-is_body String.[] h = refl
bytes-is_body (String.◌∷◌ c m) h = ground (
  arith,
  all-append (λ b. not (b == 0)) (utf8 (code c)) (bytes m),
  utf8-is_body (code c),
  bytes-is_body m,
)

-- A body is gathered up to the NUL behind it.
split_from-body :
    (segment body rest : List ℕ)
    → is_body body ≡ true
    → split_from segment (body ++ rest) ≡ split_from (segment ++ body) rest
unfolding split_from
split_from-body segment [] rest h = rw append-nil refl
split_from-body segment (b ∷ body) rest h =
    ground
      (arith, split_from-body (segment ++ b ∷ []) body rest, append_assoc segment (b ∷ []) body)

abbrev is_empty : List ℕ → Bool
is_empty [] = true
is_empty (b ∷ bs) = false

utf8-append : (c : ℕ) (s : List ℕ) → is_empty (utf8 c ++ s) ≡ false
unfolding utf8
utf8-append c s = ground arith

bytes-cons : (m : String) → m ≢ "" → is_empty (bytes m) ≡ false
unfolding bytes
bytes-cons String.[] h = absurd (h refl)
bytes-cons (String.◌∷◌ c m) h = utf8-append (code c) (bytes m)

split_from-nul :
    (segment rest : List ℕ)
    → is_empty segment ≡ false
    → split_from segment (0 ∷ rest) ≡ segment ∷ split_from [] rest
unfolding split_from
split_from-nul [] rest h = cc
split_from-nul (b ∷ bs) rest h = refl

split_from-frame :
    (m : String) (rest : List ℕ)
    → IsMessage m
    → split_from [] (frame m ++ rest) ≡ bytes m ∷ split_from [] rest
unfolding frame
split_from-frame m rest (h, n) =
    ap (split_from []) (append_assoc (bytes m) (0 ∷ []) rest)
    ∙ split_from-body [] (bytes m) (0 ∷ rest) (bytes-is_body m n)
    ∙ split_from-nul (bytes m) rest (bytes-cons m h)

split_from-open : (segment tail : List ℕ) → is_body tail ≡ true → split_from segment tail ≡ []
unfolding split_from
split_from-open segment [] h = refl
split_from-open segment (b ∷ tail) h = ground (arith, split_from-open (segment ++ b ∷ []) tail)

-- Messages that are not empty and have no NUL are read back from their frames, in order and as
-- they were written, also when an unfinished frame follows.
pub split_frames-frames :
    (ms : List String) (tail : List ℕ)
    → All IsMessage ms
    → is_body tail ≡ true
    → split_frames (frames ms ++ tail) ≡ map bytes ms
unfolding split_frames
split_frames-frames [] tail h t = split_from-open [] tail t
split_frames-frames (m ∷ ms) tail (h, hs) t =
    ap (split_from []) (append_assoc (frame m) (frames ms) tail)
    ∙ split_from-frame m (frames ms ++ tail) h
    ∙ ap (λ r. bytes m ∷ r) (split_frames-frames ms tail hs t)
