-- ===== src/Prelude/Lists.antt =====
-- Lists as `Vec`, slices and iterators use them: length, Boolean `any`, `all` and `retain`.
use Prim.Native.Nat.{ℕ, zero, suc, ◌+◌, ◌≤◌}
use mathlib.Core.Path.{◌≡◌, refl, ap}
use mathlib.Core.Logic.{◌⊎◌, inl, inr}
use mathlib.Core.Bool.{Bool, true, false, ◌&&◌, ◌||◌}
use mathlib.Core.List.{List, [], ◌∷◌, ◌++◌, map, Memᴰ}
use native.Mathlib.Omega.{arith}
use desktop_ai_dashboard.Prelude.Tests.{if◌then◌else◌, PartialEq, ◌==◌, Bool-cases}

module _ {ℓ} {A : Type ℓ} where
  abbrev pub length : List A → ℕ
  length [] = 0
  length (x ∷ xs) = suc (length xs)

  abbrev pub take : ℕ → List A → List A
  take zero xs = []
  take (suc n) [] = []
  take (suc n) (x ∷ xs) = x ∷ take n xs

  abbrev pub drop : ℕ → List A → List A
  drop zero xs = xs
  drop (suc n) [] = []
  drop (suc n) (x ∷ xs) = drop n xs

  abbrev pub any : (A → Bool) → List A → Bool
  any p [] = false
  any p (x ∷ xs) = p x || any p xs

  abbrev pub all : (A → Bool) → List A → Bool
  all p [] = true
  all p (x ∷ xs) = p x && all p xs

  -- `Vec::retain`, and `iter().filter`.
  abbrev pub retain : (A → Bool) → List A → List A
  retain p [] = []
  retain p (x ∷ xs) = if p x then x ∷ retain p xs else retain p xs

  abbrev pub All {κ} : (A → Type κ) → List A → Type κ
  All P [] = Unit
  All P (x ∷ xs) = P x × All P xs

module _ {ℓ} {A : Type ℓ} where
  pub length-append : (xs ys : List A) → length (xs ++ ys) ≡ length xs + length ys
  length-append [] ys = omega arith
  length-append (x ∷ xs) ys = omega (arith, length-append xs ys)

  pub length-retain-le : (p : A → Bool) (xs : List A) → length (retain p xs) ≤ length xs
  length-retain-le p [] = omega arith
  length-retain-le p (x ∷ xs) = ground (arith, length-retain-le p xs)

  pub any→Memᴰ : (p : A → Bool) (xs : List A) → any p xs ≡ true → (x : A) × Memᴰ x xs × (p x ≡ true)
  any→Memᴰ p (x ∷ xs) h = elim (Bool-cases (p x)) [
    | inl here ↦ (x, Memᴰ.head refl, here)
    | inr past ↦ let (y, m, e) = any→Memᴰ p xs (ground arith) in (y, Memᴰ.tail m, e)
  ]
  any→Memᴰ p [] h = cc

  pub Memᴰ→any : (p : A → Bool) (xs : List A) (x : A) → Memᴰ x xs → p x ≡ true → any p xs ≡ true
  Memᴰ→any p [] x m h = elim m [ ]
  Memᴰ→any p (y ∷ xs) x (Memᴰ.head e) h = ground arith
  Memᴰ→any p (y ∷ xs) x (Memᴰ.tail m) h = ground (arith, Memᴰ→any p xs x m h)

module _ {ℓ} {A : Type ℓ} ⦃e : PartialEq A⦄ where
  abbrev pub contains : List A → A → Bool
  contains [] a = false
  contains (x ∷ xs) a = x == a || contains xs a

  pub contains→Memᴰ : (xs : List A) (a : A) → contains xs a ≡ true → Memᴰ a xs
  contains→Memᴰ [] a h = cc
  contains→Memᴰ (x ∷ xs) a h = elim (Bool-cases (x == a)) [
    | inl here ↦ Memᴰ.head (let eq : x ≡ a = (e.equal_iff x a).0 here in cc)
    | inr past ↦ Memᴰ.tail (contains→Memᴰ xs a (ground arith))
  ]

  pub Memᴰ→contains : (xs : List A) (a : A) → Memᴰ a xs → contains xs a ≡ true
  Memᴰ→contains [] a m = elim m [ ]
  Memᴰ→contains (x ∷ xs) a (Memᴰ.head h) = ground (arith, e.equal_iff x a)
  Memᴰ→contains (x ∷ xs) a (Memᴰ.tail m) = ground (arith, Memᴰ→contains xs a m)

module _ {ℓ} {A : Type ℓ} where
  pub Memᴰ-retain :
      (p : A → Bool) (xs : List A) (x : A) → Memᴰ x (retain p xs) → Memᴰ x xs × (p x ≡ true)
  Memᴰ-retain p [] x m = elim m [ ]
  Memᴰ-retain p (y ∷ xs) x m = elim (Bool-cases (p y)) [
    | inl kept ↦ at_head kept (rw kept at m) (Memᴰ-retain p xs x)
    | inr gone ↦ let (t, e) = Memᴰ-retain p xs x (rw gone at m) in (Memᴰ.tail t, e)
  ]
    where
      at_head :
          p y ≡ true
          → Memᴰ x (y ∷ retain p xs)
          → (Memᴰ x (retain p xs) → Memᴰ x xs × (p x ≡ true))
          → Memᴰ x (y ∷ xs) × (p x ≡ true)
      at_head kept (Memᴰ.head e) rest = (Memᴰ.head e, (rw e kept))
      at_head kept (Memᴰ.tail t) rest = let (u, e) = rest t in (Memᴰ.tail u, e)

  pub Memᴰ-append : (xs ys : List A) (x : A) → Memᴰ x (xs ++ ys) → Memᴰ x xs ⊎ Memᴰ x ys
  Memᴰ-append [] ys x m = inr m
  Memᴰ-append (y ∷ xs) ys x (Memᴰ.head e) = inl (Memᴰ.head e)
  Memᴰ-append (y ∷ xs) ys x (Memᴰ.tail t) = elim (Memᴰ-append xs ys x t) [
    | inl l ↦ inl (Memᴰ.tail l)
    | inr r ↦ inr r
  ]

  pub Memᴰ-append_left : (xs ys : List A) (x : A) → Memᴰ x xs → Memᴰ x (xs ++ ys)
  Memᴰ-append_left [] ys x m = elim m [ ]
  Memᴰ-append_left (y ∷ xs) ys x (Memᴰ.head e) = Memᴰ.head e
  Memᴰ-append_left (y ∷ xs) ys x (Memᴰ.tail t) = Memᴰ.tail (Memᴰ-append_left xs ys x t)

  pub Memᴰ-append_right : (xs ys : List A) (x : A) → Memᴰ x ys → Memᴰ x (xs ++ ys)
  Memᴰ-append_right [] ys x m = m
  Memᴰ-append_right (y ∷ xs) ys x m = Memᴰ.tail (Memᴰ-append_right xs ys x m)

  pub Memᴰ→retain :
      (p : A → Bool) (xs : List A) (x : A) → Memᴰ x xs → p x ≡ true → Memᴰ x (retain p xs)
  Memᴰ→retain p [] x m h = elim m [ ]
  Memᴰ→retain p (y ∷ xs) x (Memᴰ.head e) h = let k : p y ≡ true = rw (← e) h in rw k (Memᴰ.head e)
  Memᴰ→retain p (y ∷ xs) x (Memᴰ.tail t) h = elim (Bool-cases (p y)) [
    | inl kept ↦ rw kept (Memᴰ.tail (Memᴰ→retain p xs x t h))
    | inr gone ↦ rw gone (Memᴰ→retain p xs x t h)
  ]

  pub Memᴰ-map {κ} :
      {B : Type κ} (f : A → B) (xs : List A) (b : B)
      → Memᴰ b (map f xs)
      → (x : A) × Memᴰ x xs × (b ≡ f x)
  Memᴰ-map f [] b m = elim m [ ]
  Memᴰ-map f (y ∷ xs) b (Memᴰ.head e) = (y, Memᴰ.head refl, e)
  Memᴰ-map f (y ∷ xs) b (Memᴰ.tail t) = let (x, u, e) = Memᴰ-map f xs b t in (x, Memᴰ.tail u, e)

  pub Memᴰ→map {κ} :
      {B : Type κ} (f : A → B) (xs : List A) (x : A) → Memᴰ x xs → Memᴰ (f x) (map f xs)
  Memᴰ→map f [] x m = elim m [ ]
  Memᴰ→map f (y ∷ xs) x (Memᴰ.head e) = Memᴰ.head (ap f e)
  Memᴰ→map f (y ∷ xs) x (Memᴰ.tail t) = Memᴰ.tail (Memᴰ→map f xs x t)

  -- `retain` with a weaker test keeps a Boolean `any` false.
  pub any-retain-false :
      (p q : A → Bool) (xs : List A) → any p xs ≡ false → any p (retain q xs) ≡ false
  any-retain-false p q [] h = refl
  any-retain-false p q (x ∷ xs) h = ground (arith, any-retain-false p q xs)
