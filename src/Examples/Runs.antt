-- ===== src/Examples/Runs.antt =====
-- Runs of Hermes (src-tauri/src/runtime/runs.rs, storage.rs and resources.rs).
use desktop_ai_dashboard.Prelude.{
  ◌≤◌, ◌+◌, String, true, false, Option, none, some, [], ◌∷◌, ◌≡◌, refl, ok, nat_eq, string_eq,
  AppResult, length,
}
use desktop_ai_dashboard.Validation.{max_version}
use desktop_ai_dashboard.Runtime.Dto.{state_name}
use desktop_ai_dashboard.Runtime.Polls.{
  validate_run, validate_page, validate_end, follow, shrink, add_page, merge,
}
use desktop_ai_dashboard.Runtime.Resources.{Page, extend, next_cursor, collect, pages}
use desktop_ai_dashboard.Runtime.Pages.{IsConsecutive, merge_progress}
use desktop_ai_dashboard.Runtime.Bounded.{pages-le}
use desktop_ai_dashboard.Examples.RunData.{sizes, stored, run, poll, merged}

added : merge sizes "request" stored poll ≡ ok merged
unfolding merge validate_run validate_page validate_end follow shrink add_page state_name
added = refl

merge_progress_example :
    IsConsecutive sizes "request" 0 poll.events
    × (merged.progress.cursor ≡ 0 + 1)
    × (merged.progress.cursor ≡ poll.next_after)
    × (poll.has_more ≡ false → merged.progress.cursor ≡ poll.run.last_seq)
    × (merged.progress.cursor ≤ max_version)
    × (length merged.progress.events ≤ 200)
    × (merged.progress.run ≡ some run)
    × (merged.progress.request_id ≡ stored.progress.request_id)
    × (merged.input ≡ stored.input)
    × (merged.cancel_requested ≡ stored.cancel_requested)
merge_progress_example = merge_progress sizes "request" stored merged poll added

abbrev answer : Option String → AppResult (Page String)
answer none = ok (record { items = "one" ∷ []; next_cursor = some "1"; has_more = true })
answer (some cursor) = ok (record { items = "two" ∷ []; next_cursor = none; has_more = false })

paged : pages (λ xs. length xs) answer ≡ ok ("one" ∷ "two" ∷ [])
unfolding pages collect extend next_cursor
paged = refl

pages-le_example :
    (length {A = String} ("one" ∷ "two" ∷ []) ≤ 200)
    × (length {A = String} ("one" ∷ "two" ∷ []) ≤ 524288)
pages-le_example = pages-le (λ xs. length xs) answer ("one" ∷ "two" ∷ []) paged
