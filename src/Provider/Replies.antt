-- ===== src/Provider/Replies.antt =====
-- The bodies and the lists of models that src-tauri/src/provider.rs accepts, and the references to
-- saved keys.
use mathlib.Core.List.{append_assoc, append-nil}
use desktop_ai_dashboard.Prelude.{
  ℕ, ◌+◌, ◌≤◌, String, false, not, ◌||◌, Option, List, [], ◌∷◌, ◌++◌, map, ◌≡◌, ◌↔◌, inl, inr, refl,
  ap, ◌∙◌, ◌==◌, nat_eq, string_eq, ltb, arith, eq_iff, All, contains, length, length-append,
  Bool-cases, AppResult, ok, err, >>=-eq-ok, >>-eq-ok, reject_if, reject_if-eq-ok, ok_or, is_ok,
  AppResult-cases, done-cases,
}
use desktop_ai_dashboard.Host.Json.{Value, member, as_str, as_array}
use desktop_ai_dashboard.Validation
use desktop_ai_dashboard.Provider.{
  read_chunks, max_response, malformed, item_model, parse_items, parse_models, contains_secret,
}

abbrev pub concat : List (List ℕ) → List ℕ
concat [] = []
concat (part ∷ parts) = part ++ concat parts

read_chunks-ok :
    (bytes body : List ℕ) (chunks : List (AppResult (List ℕ)))
    → length bytes ≤ max_response
    → read_chunks bytes chunks ≡ ok body
    → (parts : List (List ℕ)) × (chunks ≡ map ok parts)
      × (body ≡ bytes ++ concat parts)
      × (length body ≤ max_response)
unfolding read_chunks
read_chunks-ok bytes body [] b h =
    let same : bytes ≡ body = cc in ([], refl, rw append-nil (rw same refl), rw (← same) b)
read_chunks-ok bytes body (err e ∷ rest) b h = cc
read_chunks-ok bytes body (ok chunk ∷ rest) b h =
    let fits : length (bytes ++ chunk) ≤ max_response = ground (arith, length-append bytes chunk) in
    let (parts, p, q, r) = read_chunks-ok (bytes ++ chunk) body rest fits (ground arith) in
    (chunk ∷ parts, ap (λ t. ok chunk ∷ t) p, q ∙ append_assoc bytes chunk (concat parts), r)

ok-read_chunks :
    (bytes : List ℕ) (parts : List (List ℕ))
    → length (bytes ++ concat parts) ≤ max_response
    → read_chunks bytes (map ok parts) ≡ ok (bytes ++ concat parts)
unfolding read_chunks
ok-read_chunks bytes [] h = ap ok (rw append-nil refl)
ok-read_chunks bytes (chunk ∷ parts) h = ground (
  arith,
  append_assoc bytes chunk (concat parts),
  length-append bytes (chunk ++ concat parts),
  length-append chunk (concat parts),
  ok-read_chunks (bytes ++ chunk) parts,
)

-- A body is read exactly when every chunk arrives and all of them together keep within the limit;
-- it is then the chunks in their order.
pub read_chunks_iff :
    (chunks : List (AppResult (List ℕ))) (body : List ℕ)
    → (read_chunks [] chunks ≡ ok body) ↔ (
        (parts : List (List ℕ)) × (chunks ≡ map ok parts)
        × (body ≡ concat parts)
        × (length body ≤ max_response))
read_chunks_iff chunks body = (
  λ h. read_chunks-ok [] body chunks (omega arith) h,
  λ (parts, p, q, r). rw (p, q) (ok-read_chunks [] parts (rw q at r)),
)

-- No model stands twice in the list.
abbrev pub AreDistinct : List String → Type 0
AreDistinct [] = Unit
AreDistinct (id ∷ ids) = (contains ids id ≡ false) × AreDistinct ids

abbrev IsListed : Option String → String → Type 0
IsListed key id = (Validation.model id false ≡ ok tt) × (contains_secret id key ≡ false)

contains-append :
    (xs : List String) (y z : String) → contains (xs ++ y ∷ []) z ≡ (contains xs z || y == z)
contains-append [] y z = ground arith
contains-append (x ∷ xs) y z = ground (arith, contains-append xs y z)

AreDistinct-append :
    (xs : List String) (y : String)
    → AreDistinct xs
    → contains xs y ≡ false
    → AreDistinct (xs ++ y ∷ [])
AreDistinct-append [] y d h = ground arith
AreDistinct-append (x ∷ xs) y d h =
    ground (arith, contains-append xs y x, AreDistinct-append xs y, eq_iff x y, eq_iff y x)

IsListed-append :
    (key : Option String) (xs : List String) (y : String)
    → All (IsListed key) xs
    → IsListed key y
    → All (IsListed key) (xs ++ y ∷ [])
IsListed-append key [] y l h = (h, tt)
IsListed-append key (x ∷ xs) y (l, ls) h = (l, IsListed-append key xs y ls h)

abbrev IsCatalog : Option String → ℕ → List String → Type 0
IsCatalog key n models = AreDistinct models × All (IsListed key) models × (length models ≤ n)

item_model-IsListed :
    (key : Option String) (item : Value) (id : String)
    → item_model key item ≡ ok id
    → IsListed key id
unfolding item_model
item_model-IsListed key item id h =
    let (named, p, r) = >>=-eq-ok (ok_or (member "id" item) malformed) _ h in
    let (x, q, r) = >>=-eq-ok (ok_or (as_str named) malformed) _ r in
    let (v, r) = >>-eq-ok (reject_if (not (is_ok (Validation.model x false))) malformed) _ r in
    let (c, r) = >>-eq-ok (reject_if (contains_secret x key) malformed) _ r in
    let same : x ≡ id = cc in
    let safe = reject_if-eq-ok (contains_secret x key) malformed c in
    let held = reject_if-eq-ok (not (is_ok (Validation.model x false))) malformed v in
    let valid : Validation.model x false ≡ ok tt = elim (done-cases (Validation.model x false)) [
      | inl e ↦ e
      | inr (e, p) ↦ absurd (ground arith)
    ] in
    let both : IsListed key x = (valid, safe) in rw same at both

parse_items-IsCatalog :
    (key : Option String) (n : ℕ) (models : List String) (items : List Value) (found : List String)
    → IsCatalog key n models
    → parse_items key models items ≡ ok found
    → IsCatalog key (n + length items) found
unfolding parse_items
parse_items-IsCatalog key n models [] found (d, l, b) h =
    let same : models ≡ found = cc in (rw (← same) d, rw (← same) l, rw (← same) (omega arith))
parse_items-IsCatalog key n models (item ∷ rest) found (d, l, b) h =
    elim (AppResult-cases (item_model key item)) [
      | inr (e, p) ↦ ground arith
      | inl (id, p) ↦
          let listed = item_model-IsListed key item id p in
          elim (Bool-cases (contains models id)) [
            | inl e ↦
                let (x, y, z) =
                  parse_items-IsCatalog key n models rest found (d, l, b) (ground arith) in
                (x, y, omega arith)
            | inr e ↦
                let next : IsCatalog key (n + 1) (models ++ id ∷ []) = (
                  AreDistinct-append models id d e,
                  (IsListed-append key models id l listed),
                  omega (arith, length-append models (id ∷ [])),
                ) in
                let (x, y, z) =
                  parse_items-IsCatalog key (n + 1) (models ++ id ∷ []) rest found next
                    (ground arith) in
                (x, y, omega arith)
          ]
    ]

-- A list of models that is read has at most 200 of them, none twice; each is a valid name in which
-- the key does not stand.
pub parse_models-IsCatalog :
    (body : Value) (key : Option String) (models : List String)
    → parse_models body key ≡ ok models
    → IsCatalog key 200 models
unfolding parse_models
parse_models-IsCatalog body key models h =
    let (listed, p, r) = >>=-eq-ok (ok_or (member "data" body) malformed) _ h in
    let (items, q, r) = >>=-eq-ok (ok_or (as_array listed) malformed) _ r in
    let (c, r) = >>-eq-ok (reject_if (ltb 200 (length items)) malformed) _ r in
    let few = reject_if-eq-ok (ltb 200 (length items)) malformed c in
    let (x, y, z) = parse_items-IsCatalog key 0 [] items models (tt, tt, omega arith) r in
    (x, y, ground arith)
