-- ===== src/Runtime/Bounded.antt =====
-- Bounds on what src-tauri/src/runtime/resources.rs and the budgets of runs.rs let through.
use desktop_ai_dashboard.Prelude.{
  ℕ, zero, suc, ◌+◌, ◌*◌, ◌≤◌, String, Bool, true, false, Option, none, some, List, [], ◌∷◌, ◌==◌,
  ◌≡◌, ◌↔◌, string_eq, nat_eq, length, arith, Bool-cases, Option-cases, inl, inr, eq_iff, AppResult,
  ok, >>=-eq-ok, length-append,
}
use desktop_ai_dashboard.Runtime.Dto.{Limits, RuntimeStatus, Capabilities}
use desktop_ai_dashboard.Runtime.Storage.{require_binding}
use desktop_ai_dashboard.Runtime.Admission.{budgets_of, no_budget}
use desktop_ai_dashboard.Runtime.Resources.{budgets, Page, next_cursor, extend, collect, pages}

-- The budgets that `start` computes from the limits of the runtime pass the check on the budgets of
-- a schedule exactly when `start` accepts them.
pub budgets-budgets_of :
    (limits : Limits)
    → (budgets (budgets_of limits) ≡ ok tt) ↔ (no_budget (budgets_of limits) ≡ false)
unfolding budgets budgets_of
budgets-budgets_of limits = ground arith

-- The capabilities are handed out exactly when they are there, the runtime is verified and, if a
-- ready one is required, it is in the state "ready", says so itself and names an origin of models.
pub require_binding_iff :
    (status : RuntimeStatus) (require_ready : Bool) (caps : Capabilities)
    → (require_binding status require_ready ≡ ok caps) ↔ (
        (status.capabilities ≡ some caps)
        × (status.config.verified ≡ true)
        × (require_ready ≡ true
            → (status.state ≡ "ready")
              × (caps.runtime.ready ≡ true)
              × ((caps.model_origin == "") ≡ false)))
unfolding require_binding
require_binding_iff status require_ready caps = elim (Option-cases status.capabilities) [
  | inl absent ↦ ground arith
  | inr (known, there) ↦ ground (arith, eq_iff status.state "ready")
]

extend-le {ℓ} :
    {A : Type ℓ} (size : List A → ℕ) (result : List A) (page : Page A) (items : List A)
    → extend size result page ≡ ok items
    → (length items ≤ length result + 50) × (size items ≤ 524288)
unfolding extend
extend-le size result page items h = ground (arith, length-append result page.items)

module _ {ℓ} {A : Type ℓ} (size : List A → ℕ) (get : Option String → AppResult (Page A)) where
  collect-le :
      (turns : ℕ) (result : List A) (cursor : Option String) (seen : List String) (all : List A)
      → collect size get turns result cursor seen ≡ ok all
      → (length all ≤ length result + turns * 50) × (size all ≤ 524288)
  unfolding collect
  collect-le zero result cursor seen all h = cc
  collect-le (suc turns) result cursor seen all h =
      let (page, got, h1) = >>=-eq-ok (get cursor) _ h in
      let (items, added, h2) = >>=-eq-ok (extend size result page) _ h1 in
      let (few, small) = extend-le size result page items added in
      elim (Bool-cases page.has_more) [
        | inr last ↦ let same : ok items ≡ ok all = rw last at h2 in ground arith
        | inl more ↦
            let (next, fresh, h3) =
              >>=-eq-ok (next_cursor seen page.next_cursor)
                (λ next. collect size get turns items (some next) (next ∷ seen)) (rw more at h2) in
            let (most, within) = collect-le turns items (some next) (next ∷ seen) all h3 in
            (omega (arith, few, most), within)
      ]

  -- Whatever the runtime answers, a list that the desktop has paged through has at most 200 items
  -- and at most 524288 bytes.
  pub pages-le : (all : List A) → pages size get ≡ ok all → (length all ≤ 200) × (size all ≤ 524288)
  unfolding pages
  pages-le all h = collect-le 4 [] none [] all h
