-- ===== src/Store/Rows.antt =====
-- Laws of the statements on the tables of src-tauri/src/store.rs: `update`, `count` and `retain`.
use desktop_ai_dashboard.Prelude.{
  ◌+◌, ◌≤◌, Bool, true, false, ◌||◌, List, [], ◌∷◌, ◌++◌, ◌≡◌, ◌≢◌, refl, ap, any, retain, length,
  All, some, none, if◌then◌else◌, arith, Bool-cases, inl, inr, String, contains, string_eq,
}
use desktop_ai_dashboard.Store.Tables.{update, count, find}

module _ {ℓ} {A : Type ℓ} where
  pub count-append : (p : A → Bool) (xs ys : List A) → count p (xs ++ ys) ≡ count p xs + count p ys
  count-append p [] ys = omega arith
  count-append p (x ∷ xs) ys = ground (arith, count-append p xs ys)

  pub count-retain-le : (p q : A → Bool) (xs : List A) → count p (retain q xs) ≤ count p xs
  count-retain-le p q [] = omega arith
  count-retain-le p q (x ∷ xs) = ground (arith, count-retain-le p q xs)

  -- An update that makes no new row of the kind.
  pub count-update-le :
      (p q : A → Bool) (f : A → A) (xs : List A)
      → ((x : A) → q x ≡ true → p (f x) ≡ true → p x ≡ true)
      → count p (update q f xs) ≤ count p xs
  count-update-le p q f [] h = omega arith
  count-update-le p q f (x ∷ xs) h = ground (arith, h x, count-update-le p q f xs h)

  -- An update that does not touch what the test reads.
  pub count-update :
      (p q : A → Bool) (f : A → A) (xs : List A)
      → ((x : A) → p (f x) ≡ p x)
      → count p (update q f xs) ≡ count p xs
  count-update p q f [] h = refl
  count-update p q f (x ∷ xs) h = ground (arith, h x, count-update p q f xs h)

  pub any-update :
      (p q : A → Bool) (f : A → A) (xs : List A)
      → ((x : A) → p (f x) ≡ p x)
      → any p (update q f xs) ≡ any p xs
  any-update p q f [] h = refl
  any-update p q f (x ∷ xs) h = ground (arith, h x, any-update p q f xs h)

  -- No row is left that the update was for.
  pub count-update_zero :
      (p q : A → Bool) (f : A → A) (xs : List A)
      → ((x : A) → p (f x) ≡ false)
      → ((x : A) → p x ≡ true → q x ≡ true)
      → count p (update q f xs) ≡ 0
  count-update_zero p q f [] h k = refl
  count-update_zero p q f (x ∷ xs) h k = ground (arith, h x, k x, count-update_zero p q f xs h k)

  pub count_pos→any : (p : A → Bool) (xs : List A) → count p xs ≢ 0 → any p xs ≡ true
  count_pos→any p [] h = absurd (h refl)
  count_pos→any p (x ∷ xs) h = ground (arith, count_pos→any p xs)

  pub any_false→count : (p : A → Bool) (xs : List A) → any p xs ≡ false → count p xs ≡ 0
  any_false→count p [] h = refl
  any_false→count p (x ∷ xs) h = ground (arith, any_false→count p xs)

  pub count_zero→any : (p : A → Bool) (xs : List A) → count p xs ≡ 0 → any p xs ≡ false
  count_zero→any p [] h = refl
  count_zero→any p (x ∷ xs) h = ground (arith, count_zero→any p xs)

  pub count-le_of :
      (p q : A → Bool) (xs : List A) → ((x : A) → p x ≡ true → q x ≡ true) → count p xs ≤ count q xs
  count-le_of p q [] h = omega arith
  count-le_of p q (x ∷ xs) h = ground (arith, h x, count-le_of p q xs h)

  pub any-append : (p : A → Bool) (xs ys : List A) → any p (xs ++ ys) ≡ (any p xs || any p ys)
  any-append p [] ys = refl
  any-append p (x ∷ xs) ys = ground (arith, any-append p xs ys)

  pub length-update : (q : A → Bool) (f : A → A) (xs : List A) → length (update q f xs) ≡ length xs
  length-update q f [] = refl
  length-update q f (x ∷ xs) = omega (arith, length-update q f xs)

  pub length-retain-count : (p : A → Bool) (xs : List A) → length (retain p xs) ≡ count p xs
  length-retain-count p [] = refl
  length-retain-count p (x ∷ xs) = ground (arith, length-retain-count p xs)

  pub retain-append :
      (p : A → Bool) (xs ys : List A) → retain p (xs ++ ys) ≡ retain p xs ++ retain p ys
  retain-append p [] ys = refl
  retain-append p (x ∷ xs) ys = ground (arith, retain-append p xs ys)

  -- Rows that the update skips are kept as they are.
  pub retain-update_other :
      (p q : A → Bool) (f : A → A) (xs : List A)
      → ((x : A) → p (f x) ≡ p x)
      → ((x : A) → q x ≡ true → p x ≡ false)
      → retain p (update q f xs) ≡ retain p xs
  retain-update_other p q f [] h k = refl
  retain-update_other p q f (x ∷ xs) h k =
      ground (arith, h x, k x, retain-update_other p q f xs h k)

  pub retain-retain_other :
      (p q : A → Bool) (xs : List A)
      → ((x : A) → p x ≡ true → q x ≡ true)
      → retain p (retain q xs) ≡ retain p xs
  retain-retain_other p q [] h = refl
  retain-retain_other p q (x ∷ xs) h = ground (arith, h x, retain-retain_other p q xs h)

  pub find-update_other :
      (p q : A → Bool) (f : A → A) (xs : List A)
      → ((x : A) → p (f x) ≡ p x)
      → ((x : A) → q x ≡ true → p x ≡ false)
      → find p (update q f xs) ≡ find p xs
  find-update_other p q f [] h k = refl
  find-update_other p q f (x ∷ xs) h k = ground (arith, h x, k x, find-update_other p q f xs h k)

  pub find-retain_other :
      (p q : A → Bool) (xs : List A)
      → ((x : A) → p x ≡ true → q x ≡ true)
      → find p (retain q xs) ≡ find p xs
  find-retain_other p q [] h = refl
  find-retain_other p q (x ∷ xs) h = ground (arith, h x, find-retain_other p q xs h)

  pub find-retain_gone :
      (p q : A → Bool) (xs : List A)
      → ((x : A) → p x ≡ true → q x ≡ false)
      → find p (retain q xs) ≡ none
  find-retain_gone p q [] h = refl
  find-retain_gone p q (x ∷ xs) h = ground (arith, h x, find-retain_gone p q xs h)

  pub find_none→count : (p : A → Bool) (xs : List A) → find p xs ≡ none → count p xs ≡ 0
  find_none→count p [] h = refl
  find_none→count p (x ∷ xs) h = ground (arith, find_none→count p xs)

  pub find_some→count :
      (p : A → Bool) (xs : List A) {a : A} → find p xs ≡ some a → (count p xs ≢ 0) × (p a ≡ true)
  find_some→count p [] h = cc
  find_some→count p (x ∷ xs) {a} h = elim (Bool-cases (p x)) [
    | inl here ↦ (ground arith, ground arith)
    | inr past ↦ let (n, e) = find_some→count p xs {a = a} (ground arith) in (ground arith, e)
  ]

module _ {ℓ κ} {A : Type ℓ} (P : A → Type κ) where
  pub All-append : (xs ys : List A) → All P xs → All P ys → All P (xs ++ ys)
  All-append [] ys h k = k
  All-append (x ∷ xs) ys (p, h) k = (p, All-append xs ys h k)

  pub All-retain : (q : A → Bool) (xs : List A) → All P xs → All P (retain q xs)
  All-retain q [] h = h
  All-retain q (x ∷ xs) (p, h) = elim (Bool-cases (q x)) [
    | inl kept ↦ rw kept (p, All-retain q xs h)
    | inr gone ↦ rw gone (All-retain q xs h)
  ]

  pub All-update :
      (q : A → Bool) (f : A → A) (xs : List A)
      → ((x : A) → P x → q x ≡ true → P (f x))
      → All P xs
      → All P (update q f xs)
  All-update q f [] k h = h
  All-update q f (x ∷ xs) k (p, h) = elim (Bool-cases (q x)) [
    | inl hit ↦ rw hit (k x p hit, All-update q f xs k h)
    | inr miss ↦ rw miss (p, All-update q f xs k h)
  ]

  pub All-impl {μ} : (Q : A → Type μ) (xs : List A) → ((x : A) → P x → Q x) → All P xs → All Q xs
  All-impl Q [] k h = tt
  All-impl Q (x ∷ xs) k (p, h) = (k x p, All-impl Q xs k h)

pub contains-append_left :
    (xs ys : List String) (a : String) → contains xs a ≡ true → contains (xs ++ ys) a ≡ true
contains-append_left [] ys a h = cc
contains-append_left (x ∷ xs) ys a h = ground (arith, contains-append_left xs ys a)

pub contains-append_right :
    (xs ys : List String) (a : String) → contains ys a ≡ true → contains (xs ++ ys) a ≡ true
contains-append_right [] ys a h = h
contains-append_right (x ∷ xs) ys a h = ground (arith, contains-append_right xs ys a h)

module _ {ℓ} {A : Type ℓ} (p : A → Bool) where
  All-none : (xs : List A) (w : A) → count p xs ≡ 0 → All (λ x. p x ≡ true → x ≡ w) xs
  All-none [] w h = tt
  All-none (x ∷ xs) w h = elim (Bool-cases (p x)) [
    | inl here ↦ absurd (ground arith)
    | inr past ↦ ((λ e. cc), All-none xs w (ground arith))
  ]

  -- Where a test passes at most once, the row that it finds is the only one.
  pub All-unique :
      (xs : List A) {w : A} → count p xs ≤ 1 → find p xs ≡ some w → All (λ x. p x ≡ true → x ≡ w) xs
  All-unique [] one found = tt
  All-unique (x ∷ xs) {w} one found = elim (Bool-cases (p x)) [
    | inl here ↦ ((λ e. ground arith), All-none xs w (ground arith))
    | inr past ↦ ((λ e. cc), All-unique xs {w = w} (ground arith) (ground arith))
  ]

module _ {ℓ κ μ} {A : Type ℓ} (P : A → Type κ) (Q : A → Type μ) where
  pub All-zip : (xs : List A) → All P xs → All Q xs → All (λ x. P x × Q x) xs
  All-zip [] h k = tt
  All-zip (x ∷ xs) (p, h) (q, k) = ((p, q), All-zip xs h k)

  -- An update that brings all rows from one predicate to another.
  pub All-update_to :
      (q : A → Bool) (f : A → A) (xs : List A)
      → ((x : A) → P x → q x ≡ true → Q (f x))
      → ((x : A) → P x → Q x)
      → All P xs
      → All Q (update q f xs)
  All-update_to q f [] hit miss h = tt
  All-update_to q f (x ∷ xs) hit miss (p, h) = elim (Bool-cases (q x)) [
    | inl e ↦ rw e (hit x p e, All-update_to q f xs hit miss h)
    | inr e ↦ rw e (miss x p, All-update_to q f xs hit miss h)
  ]

module _ {ℓ} {A : Type ℓ} where
  pub update_none : (q : A → Bool) (f : A → A) (xs : List A) → count q xs ≡ 0 → update q f xs ≡ xs
  update_none q f [] h = refl
  update_none q f (x ∷ xs) h = elim (Bool-cases (q x)) [
    | inl hit ↦ absurd (ground arith)
    | inr miss ↦ rw miss (ap (λ ys. x ∷ ys) (update_none q f xs (ground arith)))
  ]

  pub find-update :
      (p q : A → Bool) (f : A → A) (xs : List A) {w : A}
      → ((x : A) → p (f x) ≡ p x)
      → find p xs ≡ some w
      → find p (update q f xs) ≡ some (if q w then f w else w)
  find-update p q f [] h found = cc
  find-update p q f (x ∷ xs) {w} h found = ground (arith, h x, find-update p q f xs {w = w} h)

  pub find-update-none :
      (p q : A → Bool) (f : A → A) (xs : List A)
      → ((x : A) → p (f x) ≡ p x)
      → find p xs ≡ none
      → find p (update q f xs) ≡ none
  find-update-none p q f [] h gone = refl
  find-update-none p q f (x ∷ xs) h gone = ground (arith, h x, find-update-none p q f xs h)
