-- ===== src/Connectors/Loopback/Codes.antt =====
-- Which requests `parse_request` of src-tauri/src/connectors/loopback.rs takes a code from.
use Prim.Native.String.{◌++◌ as append}
use desktop_ai_dashboard.Prelude.{
  ℕ, String, true, false, Option, none, some, List, [], ◌∷◌, ◌≡◌, inl, inr, refl, ◌==◌, nat_eq,
  string_eq, arith, eq_iff, Bool-cases, Option-cases, if◌then◌else◌,
}
use desktop_ai_dashboard.Host.{Host, Url}
use desktop_ai_dashboard.Connectors.Loopback.{matches_callback_url}
use desktop_ai_dashboard.Connectors.Loopback.Requests.{
  code_given, Found, collect, is_code, verdict, parse_target, before_char, print_port,
}

-- The values of a key, in order.
abbrev pub values : String → List (String × String) → List String
values k [] = []
values k ((key, value) ∷ rest) = if key == k then value ∷ values k rest else values k rest

abbrev with_first : Option String → List String → List String
with_first none vs = vs
with_first (some v) vs = v ∷ vs

collect-values :
    (c e : Option String) (qs : List (String × String)) (c' e' : Option String)
    → collect (c, e) qs ≡ some (c', e')
    → (with_first c (values "code" qs) ≡ with_first c' [])
      × (with_first e (values "error" qs) ≡ with_first e' [])
unfolding collect
collect-values c e [] c' e' h = ground arith
collect-values c e ((key, value) ∷ rest) c' e' h = elim (Bool-cases (key == "code")) [
  | inl k ↦
      let named : key ≡ "code" = (eq_iff key "code").0 k in
      let other : (key == "error") ≡ false = rw named refl in
      elim (Option-cases c) [
        | inl p ↦ ground (arith, collect-values (some value) e rest c' e')
        | inr (v, p) ↦ ground arith
      ]
  | inr k ↦ elim (Bool-cases (key == "error")) [
    | inl m ↦ elim (Option-cases e) [
      | inl p ↦ ground (arith, collect-values c (some value) rest c' e')
      | inr (v, p) ↦ ground arith
    ]
    | inr m ↦ ground (arith, collect-values c e rest c' e')
  ]
]

verdict_code :
    (f : Option Found) (c : String)
    → verdict f ≡ code_given c
    → (f ≡ some (some c, none)) × (is_code c ≡ true)
verdict_code none c h = cc
verdict_code (some (none, none)) c h = cc
verdict_code (some (none, some e)) c h = absurd (ground arith)
verdict_code (some (some d, none)) c h = ground arith
verdict_code (some (some d, some e)) c h = cc

module _ (crates : Host) (port : ℕ) (expected path : String) where
  -- A code is taken only from a target that has the exact path and no fragment, and whose URL at
  -- the listener's address matches the callback of the attempt, its state included. The code is
  -- the only one in the query, no error stands beside it, and it is one to 4096 printable bytes.
  pub parse_target_code :
      (target c : String)
      → parse_target crates port expected path target ≡ code_given c
      → (url : Url) × (crates.parse_url
            (append "http://127.0.0.1:" (append (print_port port) target))
          ≡ some url)
        × (before_char b'?' target ≡ path)
        × (matches_callback_url url port path expected ≡ true)
        × (values "code" url.query_pairs ≡ c ∷ [])
        × (values "error" url.query_pairs ≡ [])
        × (is_code c ≡ true)
  unfolding parse_target
  parse_target_code target c h =
      elim (Option-cases
        (crates.parse_url (append "http://127.0.0.1:" (append (print_port port) target)))) [
          | inl e ↦ absurd (ground arith)
          | inr (url, e) ↦
              let given : verdict (collect (none, none) url.query_pairs) ≡ code_given c =
                ground arith in
              let (f, good) = verdict_code (collect (none, none) url.query_pairs) c given in
              let (codes, errors) = collect-values none none url.query_pairs (some c) none f in
              (
                url,
                e,
                ground (arith, eq_iff (before_char b'?' target) path),
                ground arith,
                codes,
                errors,
                good,
              )
        ]
