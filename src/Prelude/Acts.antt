-- ===== src/Prelude/Acts.antt =====
-- A computation on a locked state that can fail; what it has changed when it fails stays changed.
use mathlib.Core.Path.{◌≡◌, refl, ap}
use mathlib.Core.Bool.{Bool, true, false}
use desktop_ai_dashboard.Prelude.Results.{AppError, AppResult, ok, err}

abbrev pub Act {κ ℓ} : Type κ → Type ℓ → Type (κ ⊔ ℓ)
Act S A = S → AppResult A × S

module _ {κ} {S : Type κ} where
  abbrev pub pure {ℓ} : {A : Type ℓ} → A → Act S A
  pure a s = (ok a, s)

  abbrev pub after {ℓ μ} :
      {A : Type ℓ} {B : Type μ} → AppResult A × S → (A → Act S B) → AppResult B × S
  after (ok a, s) next = next a s
  after (err e, s) next = (err e, s)

  infixl 5 ◌>>=◌ ◌>>◌
  abbrev pub ◌>>=◌ {ℓ μ} : {A : Type ℓ} {B : Type μ} → Act S A → (A → Act S B) → Act S B
  m >>= next = λ s. after (m s) next

  abbrev pub ◌>>◌ {μ} : {B : Type μ} → Act S (Unit {0}) → Act S B → Act S B
  m >> rest = m >>= λ done. rest

  -- A result that does not depend on the state.
  abbrev pub lift {ℓ} : {A : Type ℓ} → AppResult A → Act S A
  lift r s = (r, s)

  abbrev pub modify : (S → S) → Act S (Unit {0})
  modify f s = (ok tt, f s)

  abbrev pub require : Bool → AppError → Act S (Unit {0})
  require true e s = (ok tt, s)
  require false e s = (err e, s)

  abbrev pub state : Act S S
  state s = (ok s, s)

  -- A query.
  abbrev pub ask {ℓ} : {A : Type ℓ} → (S → AppResult A) → Act S A
  ask f s = (f s, s)

  -- `m`, and `recover` with its error if it fails.
  abbrev pub or_else {ℓ} : {A : Type ℓ} → Act S A → (AppError → Act S A) → Act S A
  or_else m recover s = let r = m s in elim r.0 [ ok a ↦ r | err e ↦ recover e r.1 ]

-- Inversion of a successful step, for proofs where the parts stay shut.
pub after-eq-ok {κ ℓ μ} :
    {S : Type κ} {A : Type ℓ} {B : Type μ} (r : AppResult A × S) (next : A → Act S B) {b : B}
    {t : S}
    → after r next ≡ (ok b, t)
    → (a : A) × (s : S) × (r ≡ (ok a, s)) × (next a s ≡ (ok b, t))
after-eq-ok (ok a, s) next h = (a, s, refl, h)
after-eq-ok {B = B} (err e, s) next {b} h =
    let clash : Path (AppResult B) (err e) (ok b) = ap (λ p. p.0) h in cc
