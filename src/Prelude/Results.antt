-- ===== src/Prelude/Results.antt =====
-- `AppError` and `AppResult` (src-tauri/src/types.rs), with `?` as the bind of a `do` block.
use Prim.Native.String.{String}
use mathlib.Core.Path.{◌≡◌, refl}
use mathlib.Core.Logic.{◌⊎◌, inl, inr}
use mathlib.Core.Bool.{Bool, true, false}
use mathlib.Core.Option.{Option, none, some}

pub record AppError : Type 0 where
  pub code : String
  pub message : String

abbrev pub storage : AppError
storage = record {
  code = "storage";
  message =
      "Local storage is unavailable. Restart Forma or restore a known-good backup; your data has not been reset.";
}

abbrev pub invalid : AppError
invalid = record {
  code = "invalid_input";
  message = "Some input is invalid or exceeds the supported limit.";
}

abbrev pub missing : AppError
missing = record { code = "not_found"; message = "This workspace or request no longer exists." }

abbrev pub stale : AppError
stale = record {
  code = "stale_request";
  message = "The request was cancelled or the provider configuration changed.";
}

pub data AppResult {ℓ} (A : Type ℓ) : Type ℓ where
  ok : A → AppResult A
  err : AppError → AppResult A

-- `m?` and the rest of the function.
infixl 5 ◌>>◌ ◌>>=◌
abbrev pub ◌>>=◌ {κ μ} : {X : Type κ} {Y : Type μ} → AppResult X → (X → AppResult Y) → AppResult Y
r >>= next = elim r [ ok x ↦ next x | err e ↦ err e ]

abbrev pub ◌>>◌ {κ} : {Y : Type κ} → AppResult (Unit {0}) → AppResult Y → AppResult Y
r >> rest = r >>= λ done. rest

-- `if fails { return Err(e) }`.
abbrev pub reject_if : Bool → AppError → AppResult (Unit {0})
reject_if true e = err e
reject_if false e = ok tt

abbrev pub ok_or {ℓ} : {A : Type ℓ} → Option A → AppError → AppResult A
ok_or none e = err e
ok_or (some a) e = ok a

abbrev pub is_ok {ℓ} : {A : Type ℓ} → AppResult A → Bool
is_ok (ok a) = true
is_ok (err e) = false

-- Inversion of a successful bind, for proofs where the parts stay shut.
pub >>=-eq-ok {κ μ} :
    {X : Type κ} {Y : Type μ} (r : AppResult X) (next : X → AppResult Y) {y : Y}
    → (r >>= next) ≡ ok y
    → (x : X) × (r ≡ ok x) × (next x ≡ ok y)
>>=-eq-ok (err e) next h = cc
>>=-eq-ok (ok x) next h = (x, refl, h)

pub >>-eq-ok {ℓ} :
    {B : Type ℓ} (m : AppResult (Unit {0})) (k : AppResult B) {b : B}
    → (m >> k) ≡ ok b
    → (m ≡ ok tt) × (k ≡ ok b)
>>-eq-ok (ok tt) k h = (refl, h)
>>-eq-ok (err e) k h = cc

pub reject_if-eq-ok : (b : Bool) (e : AppError) → reject_if b e ≡ ok tt → b ≡ false
reject_if-eq-ok true e h = cc
reject_if-eq-ok false e h = refl

pub ok_or-eq-ok {ℓ} :
    {A : Type ℓ} (o : Option A) (e : AppError) {a : A} → ok_or o e ≡ ok a → o ≡ some a
ok_or-eq-ok none e h = cc
ok_or-eq-ok (some a) e h = cc

pub AppResult-cases {ℓ} :
    {A : Type ℓ} (r : AppResult A) → ((a : A) × (r ≡ ok a)) ⊎ ((e : AppError) × (r ≡ err e))
AppResult-cases (ok a) = inl (a, refl)
AppResult-cases (err e) = inr (e, refl)

pub done-cases : (r : AppResult (Unit {0})) → (r ≡ ok tt) ⊎ ((e : AppError) × (r ≡ err e))
done-cases (ok tt) = inl refl
done-cases (err e) = inr (e, refl)
