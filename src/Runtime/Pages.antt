-- ===== src/Runtime/Pages.antt =====
-- The progress of a run behind a page: `apply_poll` of src-tauri/src/runtime/runs.rs.
use desktop_ai_dashboard.Prelude.{
  ℕ, zero, suc, ◌+◌, ◌-◌, ◌≤◌, String, false, some, List, [], ◌∷◌, ◌++◌, ◌≡◌, ◌↔◌, refl, string_eq,
  nat_eq, length, drop, arith, eq_iff, ok, >>=-eq-ok, >>-eq-ok,
}
use desktop_ai_dashboard.Validation.{max_version}
use desktop_ai_dashboard.Runtime.Dto.{Event, RunPoll, StoredRequest, Json}
use desktop_ai_dashboard.Runtime.Polls.{
  validate_run, validate_page, validate_end, newest, follow, shrink, extended, add_page, merge,
}

length-drop {ℓ} : {A : Type ℓ} (n : ℕ) (xs : List A) → length (drop n xs) ≡ length xs - n
length-drop zero xs = omega arith
length-drop (suc n) [] = omega arith
length-drop (suc n) (x ∷ xs) = omega (arith, length-drop n xs)

length-newest-le : (events : List Event) → length (newest events) ≤ 200
length-newest-le events = ground (arith, length-drop (length events - 200) events)

end_facts :
    (poll : RunPoll) (last : ℕ)
    → validate_end poll last ≡ ok tt
    → (last ≡ poll.next_after) × (poll.has_more ≡ false → last ≡ poll.run.last_seq)
unfolding validate_end
end_facts poll last h = (ground arith, λ all. ground arith)

bounded :
    (request : StoredRequest) (poll : RunPoll)
    → validate_run request poll.run ≡ ok tt
    → validate_page request poll ≡ ok tt
    → poll.next_after ≤ max_version
unfolding validate_run validate_page
bounded request poll valid page = ground arith

module _ (json : Json) where
  -- Consecutive events of one run after a sequence number, each within the size limit.
  unfoldable pub IsConsecutive : String → ℕ → List Event → Type 0
  IsConsecutive run cursor [] = Unit
  IsConsecutive run cursor (event ∷ events) =
      (event.run_id ≡ run)
      × (event.seq ≡ cursor + 1)
      × (json.event_size event ≤ 100000)
      × IsConsecutive run event.seq events

  follow_sound :
      (run : String) (cursor : ℕ) (events : List Event) (last : ℕ)
      → follow json run cursor events ≡ ok last
      → IsConsecutive run cursor events × (last ≡ cursor + length events)
  unfolding follow IsConsecutive
  follow_sound run cursor [] last h = (tt, ground arith)
  follow_sound run cursor (event ∷ events) last h =
      ground (arith, eq_iff event.run_id run, follow_sound run event.seq events last)

  follow_complete :
      (run : String) (cursor : ℕ) (events : List Event)
      → IsConsecutive run cursor events
      → follow json run cursor events ≡ ok (cursor + length events)
  unfolding follow IsConsecutive
  follow_complete run cursor [] h = ground arith
  follow_complete run cursor (event ∷ events) (own, next, small, rest) =
      ground (arith, eq_iff event.run_id run, follow_complete run event.seq events rest)

  -- The loop over the events of a page succeeds exactly when they are consecutive events of the
  -- run after the cursor, none above 100000 bytes, and then it ends at the cursor advanced by
  -- their number.
  pub follow_iff :
      (run : String) (cursor : ℕ) (events : List Event) (last : ℕ)
      → (follow json run cursor events ≡ ok last)
        ↔ (IsConsecutive run cursor events × (last ≡ cursor + length events))
  follow_iff run cursor events last =
      (follow_sound run cursor events last, λ (h, e). rw e (follow_complete run cursor events h))

  shrink_le :
      (bytes : ℕ) (events : List Event) (kept : List Event)
      → shrink json bytes events ≡ ok kept
      → length kept ≤ length events
  unfolding shrink
  shrink_le bytes [] kept h = ground arith
  shrink_le bytes (event ∷ events) kept h =
      ground (arith, shrink_le (bytes - json.event_size event) events kept)

  added_page :
      (request merged : StoredRequest) (poll : RunPoll) (last : ℕ)
      → add_page json request poll last ≡ ok merged
      → (events : List Event) × (length events ≤ 200)
        × (merged ≡ record request {
          progress = record (extended json request.progress poll last) { events = events };
        })
  unfolding add_page
  added_page request merged poll last h =
      let progress = extended json request.progress poll last in
      let (events, kept, done) =
        >>=-eq-ok (shrink json (json.progress_size progress) progress.events) _ h in
      (
        events,
        omega (
          arith,
          shrink_le (json.progress_size progress) progress.events events kept,
          length-newest-le (request.progress.events ++ poll.events),
        ),
        ground arith,
      )

  -- A page that is accepted advances the cursor by the number of its events, which are the next
  -- ones of this run, to the number that the page names and, on the last page, to the last one of
  -- the run. At most 200 events are kept. The request itself and its identifiers stay.
  pub merge_progress :
      (id : String) (request merged : StoredRequest) (poll : RunPoll)
      → merge json id request poll ≡ ok merged
      → IsConsecutive id request.progress.cursor poll.events
        × (merged.progress.cursor ≡ request.progress.cursor + length poll.events)
        × (merged.progress.cursor ≡ poll.next_after)
        × (poll.has_more ≡ false → merged.progress.cursor ≡ poll.run.last_seq)
        × (merged.progress.cursor ≤ max_version)
        × (length merged.progress.events ≤ 200)
        × (merged.progress.run ≡ some poll.run)
        × (merged.progress.request_id ≡ request.progress.request_id)
        × (merged.input ≡ request.input)
        × (merged.cancel_requested ≡ request.cancel_requested)
  unfolding merge
  merge_progress id request merged poll h =
      let (valid, h1) = >>-eq-ok (validate_run request poll.run) _ h in
      let (page, h2) = >>-eq-ok (validate_page request poll) _ h1 in
      let (last, walked, h3) =
        >>=-eq-ok (follow json id request.progress.cursor poll.events) _ h2 in
      let (ends, h4) = >>-eq-ok (validate_end poll last) (add_page json request poll last) h3 in
      let (consecutive, count) = follow_sound id request.progress.cursor poll.events last walked in
      let added = added_page request merged poll last h4 in
      let (events, few, same) = added in
      let (to_page, to_end) = end_facts poll last ends in
      let below = bounded request poll valid page in
      rw same (
        consecutive,
        count,
        to_page,
        to_end,
        omega (arith, below, to_page),
        few,
        refl,
        refl,
        refl,
        refl,
      )
