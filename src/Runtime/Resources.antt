-- ===== src/Runtime/Resources.antt =====
-- The checks and the paging of src-tauri/src/runtime/resources.rs, and the pages that `pages` asks
-- the runtime for.
use Prim.Native.String.{len}
use desktop_ai_dashboard.Prelude.{
  ℕ, zero, suc, String, Bool, true, false, not, ◌&&◌, ◌||◌, Option, none, some, List, [], ◌∷◌, ◌++◌,
  ◌==◌, string_eq, nat_eq, ltb, length, contains, if◌then◌else◌, AppError, AppResult, ◌>>=◌, ◌>>◌,
  ok, err, reject_if, invalid,
}
use desktop_ai_dashboard.Prelude.Texts.{all_chars, is_digit}
use desktop_ai_dashboard.Host.{Host}
use desktop_ai_dashboard.Validation
use desktop_ai_dashboard.Validation.{max_version}
use desktop_ai_dashboard.Runtime.Dto.{Budgets, GrantRef}
use desktop_ai_dashboard.Runtime.Storage.{protocol}
use desktop_ai_dashboard.Runtime.Admission.{char_count}

abbrev pub page_limit : AppError
page_limit = record {
  code = "runtime_limit";
  message = "More than 200 runtime objects match. This bounded view was not silently truncated.";
}

abbrev pub size_limit : AppError
size_limit = record {
  code = "runtime_limit";
  message = "The runtime list exceeds the desktop's bounded view. Narrow the workspace scope.";
}

unfoldable pub version : ℕ → Bool → AppResult (Unit {0})
version v zero_too = reject_if (ltb max_version v || v == 0 && not zero_too) invalid

unfoldable pub title : String → AppResult (Unit {0})
title s = do Validation.single_line s 640 false; reject_if (ltb 160 (char_count s)) invalid

unfoldable pub budgets : Budgets → AppResult (Unit {0})
budgets b =
    reject_if
      (b.max_iterations == 0
        || ltb 8 b.max_iterations
        || ltb 12 b.max_tool_calls
        || b.max_output_tokens == 0
        || ltb 4096 b.max_output_tokens
        || b.max_duration_seconds == 0
        || ltb 180 b.max_duration_seconds)
      invalid

module _ (host : Host) where
  -- The loop of `grants`: `ids` are those that it has seen.
  unfoldable pub distinct_grants : List String → List GrantRef → AppResult (Unit {0})
  distinct_grants ids [] = ok tt
  distinct_grants ids (r ∷ refs) =
      Validation.id host r.id
      >> version r.generation false
      >> reject_if (contains ids r.id) invalid
      >> distinct_grants (r.id ∷ ids) refs

  unfoldable pub grants : List GrantRef → AppResult (Unit {0})
  grants refs = do reject_if (ltb 12 (length refs)) invalid; distinct_grants [] refs

pub record Page {ℓ} (A : Type ℓ) : Type ℓ where
  pub items : List A
  pub next_cursor : Option String
  pub has_more : Bool

-- The cursor of the next page, which must be new.
unfoldable pub next_cursor : List String → Option String → AppResult String
next_cursor seen none = err protocol
next_cursor seen (some next) =
    if next == "" || ltb 12 (len next) || not (all_chars is_digit next) || contains seen next
    then err protocol
    else ok next

-- The items so far and those of one page.
unfoldable pub extend {ℓ} : {A : Type ℓ} → (List A → ℕ) → List A → Page A → AppResult (List A)
extend size result page =
    if ltb 50 (length page.items)
    then err protocol
    else if ltb 524288 (size (result ++ page.items))
    then err size_limit
    else ok (result ++ page.items)

module _ {ℓ} {A : Type ℓ} (size : List A → ℕ) (get : Option String → AppResult (Page A)) where
  -- The loop of `pages`: `get` answers a request for the page at a cursor, and `size` is the length
  -- of the JSON text of a list.
  unfoldable pub collect : ℕ → List A → Option String → List String → AppResult (List A)
  collect zero result cursor seen = err page_limit
  collect (suc turns) result cursor seen =
      let more =
        λ (items : List A) (next : String). collect turns items (some next) (next ∷ seen) in
      get cursor >>= λ page. extend size result page >>= λ items. elim page.has_more [
        | false ↦ ok items
        | true ↦ next_cursor seen page.next_cursor >>= λ next. more items next
      ]

  unfoldable pub pages : AppResult (List A)
  pages = collect 4 [] none []
