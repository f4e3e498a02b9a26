-- ===== src/Connectors/Loopback/Comparison.antt =====
-- The comparison of callback states in src-tauri/src/connectors/loopback.rs, `constant_time_eq`,
-- against the equality of byte sequences.
use Prim.Native.Nat.{bit_or, bit_xor, digits, differ, max, bit_or-bitwise, bit_xor-bitwise}
use desktop_ai_dashboard.Prelude.{
  ℕ, zero, suc, ◌/◌, ◌%◌, ◌≤◌, true, List, [], ◌∷◌, ◌≡◌, ◌↔◌, refl, ◌==◌, nat_eq, length, arith,
  Bool-cases, inl, inr,
}
use desktop_ai_dashboard.Connectors.Loopback.{difference, constant_time_eq}

abbrev xor_digits : ℕ → ℕ → ℕ → ℕ
xor_digits n a b = digits (λ b. b) differ n a b

abbrev or_digits : ℕ → ℕ → ℕ → ℕ
or_digits n a b = digits (λ b. b) max n a b

differ_zero-same : (x y : ℕ) → differ x y ≡ 0 → x ≡ y
differ_zero-same zero y h = omega (arith, h)
differ_zero-same (suc x) zero h = omega (arith, h)
differ_zero-same (suc x) (suc y) h = omega (arith, differ_zero-same x y h)

differ_same : (x : ℕ) → differ x x ≡ 0
differ_same zero = refl
differ_same (suc x) = differ_same x

xor_zero-same : (n a b : ℕ) → a ≤ n → xor_digits n a b ≡ 0 → a ≡ b
xor_zero-same zero zero b p h = omega (arith, h)
xor_zero-same zero (suc a) b p h = absurd (omega arith)
xor_zero-same (suc n) zero b p h = omega (arith, h)
xor_zero-same (suc n) (suc a) b p h =
    let half : suc a / 2 ≡ b / 2 =
      xor_zero-same n (suc a / 2) (b / 2) (omega arith) (omega (arith, h)) in
    let last : suc a % 2 ≡ b % 2 = differ_zero-same (suc a % 2) (b % 2) (omega (arith, h)) in
    omega arith

xor_same : (n a : ℕ) → a ≤ n → xor_digits n a a ≡ 0
xor_same zero zero p = refl
xor_same zero (suc a) p = absurd (omega arith)
xor_same (suc n) zero p = refl
xor_same (suc n) (suc a) p =
    omega (arith, xor_same n (suc a / 2) (omega arith), differ_same (suc a % 2))

or_zero-both : (n a b : ℕ) → a ≤ n → or_digits n a b ≡ 0 → (a ≡ 0) × (b ≡ 0)
or_zero-both zero zero b p h = (refl, h)
or_zero-both zero (suc a) b p h = absurd (omega arith)
or_zero-both (suc n) zero b p h = (refl, h)
or_zero-both (suc n) (suc a) b p h =
    let (low, high) = or_zero-both n (suc a / 2) (b / 2) (omega arith) (omega (arith, h)) in
    absurd (omega (arith, h, low))

bit_xor_iff : (a b : ℕ) → (bit_xor a b ≡ 0) ↔ (a ≡ b)
bit_xor_iff a b = (
  λ h. xor_zero-same a a b (omega arith) (omega (arith, h, bit_xor-bitwise a b)),
  λ e. rw (← e) (omega (arith, bit_xor-bitwise a a, xor_same a a (omega arith))),
)

bit_or_iff : (a b : ℕ) → (bit_or a b ≡ 0) ↔ ((a ≡ 0) × (b ≡ 0))
bit_or_iff a b = (
  λ h. or_zero-both a a b (omega arith) (omega (arith, h, bit_or-bitwise a b)),
  λ (x, y). rw (x, y) refl,
)

difference_iff :
    (diff : ℕ) (a b : List ℕ)
    → length a ≡ length b
    → (difference diff a b ≡ 0) ↔ ((diff ≡ 0) × (a ≡ b))
unfolding difference
difference_iff diff [] [] h = (λ e. (e, refl), λ (e, same). e)
difference_iff diff [] (y ∷ b) h = absurd (omega (arith, h))
difference_iff diff (x ∷ a) [] h = absurd (omega (arith, h))
difference_iff diff (x ∷ a) (y ∷ b) h =
    let (to, from) = difference_iff (bit_or diff (bit_xor x y)) a b (omega (arith, h)) in
    (
      λ e.
          let (both, same) = to e in
          let (none_, equal) = (bit_or_iff diff (bit_xor x y)).0 both in
          (none_, cc ((bit_xor_iff x y).0 equal, same)),
      λ (none_, same).
          from ((bit_or_iff diff (bit_xor x y)).1 (none_, (bit_xor_iff x y).1 (cc same)), cc same),
    )

-- The comparison that looks at every byte accepts exactly equal sequences.
pub constant_time_eq_iff : (a b : List ℕ) → (constant_time_eq a b ≡ true) ↔ (a ≡ b)
unfolding constant_time_eq
constant_time_eq_iff a b = elim (Bool-cases (length a == length b)) [
  | inl long ↦
      let (to, from) = difference_iff 0 a b (ground arith) in
      (
        λ h. (to (ground arith)).1,
        λ e. let zero_ : difference 0 a b ≡ 0 = from (refl, e) in ground arith,
      )
  | inr other ↦ (λ h. absurd (ground arith), λ e. absurd (let bad = rw e at other in ground arith))
]
