-- ===== src/Connectors/Confirmed.antt =====
-- Which permissions a connection of src-tauri/src/connectors.rs can come to have.
use desktop_ai_dashboard.Prelude.{
  ◌≤◌, String, Bool, true, false, not, ◌||◌, Option, List, [], ◌∷◌, ◌++◌, ◌≡◌, ◌≢◌, ◌==◌, nat_eq,
  string_eq, any, contains, length, arith, eq_iff, All, ok, reject_if, is_ok, >>=-eq-ok, >>-eq-ok,
  reject_if-eq-ok, done-cases, inl, inr,
}
use desktop_ai_dashboard.Connectors.Scopes.{
  allowed_scopes, check_scopes, validate_scopes, confirmed_scopes, granted_scopes, scope_error,
}

-- No scope stands twice.
abbrev AreDistinct : List String → Type 0
AreDistinct [] = Unit
AreDistinct (s ∷ ss) = (contains ss s ≡ false) × AreDistinct ss

abbrev IsPermitted : List String → Type 0
IsPermitted scopes =
    (length scopes ≢ 0)
    × (length scopes ≤ 8)
    × All (λ s. contains allowed_scopes s ≡ true) scopes
    × AreDistinct scopes

contains-append :
    (xs : List String) (y z : String) → contains (xs ++ y ∷ []) z ≡ (contains xs z || y == z)
contains-append [] y z = ground arith
contains-append (x ∷ xs) y z = ground (arith, contains-append xs y z)

-- What is seen before does not stand in the rest.
abbrev Avoids : List String → List String → Type 0
Avoids before scopes = All (λ s. contains before s ≡ false) scopes

avoided :
    (before : List String) (y : String) (scopes : List String)
    → Avoids (before ++ y ∷ []) scopes
    → Avoids before scopes × (contains scopes y ≡ false)
avoided before y [] a = ground arith
avoided before y (s ∷ scopes) (h, a) =
    let (b, c) = avoided before y scopes a in
    ground (arith, contains-append before y s, eq_iff s y, eq_iff y s)

check_scopes-ok :
    (before scopes : List String)
    → check_scopes before scopes ≡ ok tt
    → All (λ s. contains allowed_scopes s ≡ true) scopes × AreDistinct scopes × Avoids before scopes
unfolding check_scopes
check_scopes-ok before [] h = ground arith
check_scopes-ok before (s ∷ scopes) h =
    let (p, d, a) = check_scopes-ok (before ++ s ∷ []) scopes (ground arith) in
    let (b, c) = avoided before s scopes a in ((ground arith, p), (c, d), (ground arith, b))

validate_scopes-IsPermitted :
    (scopes : List String) → validate_scopes scopes ≡ ok tt → IsPermitted scopes
unfolding validate_scopes
validate_scopes-IsPermitted scopes h =
    let (p, d, a) = check_scopes-ok [] scopes (ground arith) in (ground arith, ground arith, p, d)

none_outside :
    (requested scopes : List String)
    → any (λ s. not (contains requested s)) scopes ≡ false
    → All (λ s. contains requested s ≡ true) scopes
none_outside requested [] h = tt
none_outside requested (s ∷ scopes) h = (ground arith, none_outside requested scopes (ground arith))

-- The scopes of a grant that is accepted are at least one and at most eight of those that the
-- program allows, none twice, and each was requested.
pub granted_scopes-IsPermitted :
    (scope : Option String) (requested : List String) (refresh : Bool) (scopes : List String)
    → granted_scopes scope requested refresh ≡ ok scopes
    → IsPermitted scopes × All (λ s. contains requested s ≡ true) scopes
unfolding granted_scopes
granted_scopes-IsPermitted scope requested refresh scopes h =
    let (found, p, r) = >>=-eq-ok (confirmed_scopes scope requested refresh) _ h in
    let (v, r) = >>-eq-ok (reject_if (not (is_ok (validate_scopes found))) scope_error) _ r in
    let (c, r) =
      >>-eq-ok (reject_if (any (λ s. not (contains requested s)) found) scope_error) _ r in
    let same : found ≡ scopes = cc in
    let valid = reject_if-eq-ok (not (is_ok (validate_scopes found))) scope_error v in
    let inside = reject_if-eq-ok (any (λ s. not (contains requested s)) found) scope_error c in
    let passed : validate_scopes found ≡ ok tt = elim (done-cases (validate_scopes found)) [
      | inl e ↦ e
      | inr (e, q) ↦ absurd (ground arith)
    ] in
    (
      validate_scopes-IsPermitted scopes (rw same at passed),
      none_outside requested scopes (rw same at inside),
    )
