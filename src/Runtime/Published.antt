-- ===== src/Runtime/Published.antt =====
-- When a page of a run publishes a reply: `apply_poll` of src-tauri/src/runtime/runs.rs.
use desktop_ai_dashboard.Prelude.{
  String, true, false, not, ◌&&◌, some, List, ◌≡◌, ◌≢◌, ◌↔◌, ◌⊎◌, string_eq, nat_eq, arith,
  Bool-cases, done-cases, AppResult-cases, Option-cases, inl, inr, ok,
}
use desktop_ai_dashboard.Host.{Host}
use desktop_ai_dashboard.Runtime.Dto.{
  Json, Run, RunPoll, ToolRequest, StoredRequest, is_final, succeeded,
}
use desktop_ai_dashboard.Runtime.Requests.{
  publishable, runtime_request, runtime_save_request, runtime_current,
}
use desktop_ai_dashboard.Runtime.Polls.{merge, outcome}
use desktop_ai_dashboard.Runtime.Runs.{initialize_remote, settle, apply_poll}
use desktop_ai_dashboard.Runtime.Fences.{
  runtime_current-IsRouted, initialize_remote-IsRouted, runtime_finish_outcome,
}
use desktop_ai_dashboard.Store.Tables
use desktop_ai_dashboard.Store.Tables.{
  Status, MessageRow, Tables, Db, ◌>>=◌, query, lift, execute, update, count,
}

-- A run is published as a complete reply exactly when it has succeeded with a final message, and
-- then with that message.
pub outcome_iff :
    (run : Run) (text : String)
    → (outcome run ≡ ok (Tables.complete, text))
      ↔ ((run.state ≡ succeeded) × (run.final_message ≡ some text))
unfolding outcome
outcome_iff run text = ground arith

module _ (host : Host) (json : Json) where
  -- What the end of `apply_poll` does to the messages.
  settle-outcome :
      (request : StoredRequest) (poll : RunPoll) (now : String) (t : Tables)
      → ((settle host request poll now t).0.messages ≡ t.messages
          × ((settle host request poll now t).1 ≡ ok tt
              → (is_final poll.run.state && not poll.has_more) ≡ false))
        ⊎ ((is_final poll.run.state ≡ true)
            × (poll.has_more ≡ false)
            × ((status : Status) × (text : String) × ((outcome poll.run ≡ ok (status, text))
                  × (count (publishable request) t.messages ≡ 1)
                  × ((settle host request poll now t).1 ≡ ok tt)
                  × ((settle host request poll now t).0.messages
                      ≡ update
                          (publishable request)
                          (λ m. record m { status = status; content = text })
                          t.messages))))
  unfolding settle runtime_save_request
  settle-outcome request poll now t =
      elim (Bool-cases (is_final poll.run.state && not poll.has_more)) [
        | inr more ↦ inl (ground arith)
        | inl last ↦ elim (AppResult-cases (outcome poll.run)) [
          | inr (e, bad) ↦ inl (ground arith)
          | inl ((status, text), good) ↦
              elim (runtime_finish_outcome host request status text now t) [
                | inl (e, (refused, same, kept)) ↦ inl (ground arith)
                | inr (free, current, one, done, made) ↦ inr (
                  ground arith,
                  ground arith,
                  (
                    status,
                    text,
                    (
                      good,
                      one,
                      ground arith,
                      ground (arith, runtime_current-IsRouted host request t),
                    ),
                  ),
                )
              ]
        ]
      ]

  -- What a run that has ended makes of the one pending reply of its request.
  pub record Publication (request : StoredRequest) (poll : RunPoll) (before after : List MessageRow)
      : Type 0 where
    pub ended : is_final poll.run.state ≡ true
    pub last_page : poll.has_more ≡ false
    pub status : Status
    pub text : String
    pub from_run : outcome poll.run ≡ ok (status, text)
    pub one_reply : count (publishable request) before ≡ 1
    pub settled :
        after
        ≡ update (publishable request) (λ m. record m { status = status; content = text }) before

  module _ (id : String) (poll : RunPoll) (now : String) (t : Tables) where
    apply_poll_cases :
        (((apply_poll host json id poll now t).0.messages ≡ t.messages)
          × ((merged : StoredRequest) (tools : List ToolRequest)
              → (apply_poll host json id poll now t).1 ≢ ok (merged, tools, true)))
        ⊎ ((merged : StoredRequest) × ((apply_poll host json id poll now t).1
              ≡ ok (merged, poll.tool_requests, true))
            × Publication merged poll t.messages (apply_poll host json id poll now t).0.messages)
    unfolding apply_poll
    apply_poll_cases = elim (AppResult-cases (runtime_request host id t)) [
      | inr (e, bad) ↦ inl (ground arith)
      | inl (stored, read) ↦ elim (Option-cases stored) [
        | inl absent ↦ inl (ground arith)
        | inr (request, there) ↦ elim (done-cases (runtime_current host request t).1) [
          | inr (e, old) ↦ inl (ground (arith, runtime_current-IsRouted host request t))
          | inl current ↦ elim (AppResult-cases (merge json id request poll)) [
            | inr (e, bad) ↦ inl (ground (arith, runtime_current-IsRouted host request t))
            | inl (merged, good) ↦
                let u = (runtime_current host request t).0 in
                let v = (initialize_remote host merged.input.workspace_id u).0 in
                let kept : v.messages ≡ t.messages = ground (
                  arith,
                  runtime_current-IsRouted host request t,
                  initialize_remote-IsRouted host merged.input.workspace_id u,
                ) in
                elim (done-cases (initialize_remote host merged.input.workspace_id u).1) [
                  | inr (e, bad) ↦ inl (ground arith)
                  | inl ready ↦ elim (settle-outcome merged poll now v) [
                    | inl (same, unfinished) ↦ elim (done-cases (settle host merged poll now v).1) [
                      | inr (e, bad) ↦ inl (ground arith)
                      | inl fine ↦ inl (ground arith)
                    ]
                    | inr (ended, last, (status, text, (from_run, one, fine, made))) ↦ inr (
                      merged,
                      ground arith,
                      record {
                        ended = ended;
                        last_page = last;
                        status = status;
                        text = text;
                        from_run = from_run;
                        one_reply = ground arith;
                        settled = ground arith;
                      },
                    )
                  ]
                ]
          ]
        ]
      ]
    ]

    -- A page changes no message, whatever it holds and whether it is refused or not, unless
    -- `apply_poll` answers that the run is complete.
    pub apply_poll-messages :
        ((merged : StoredRequest) (tools : List ToolRequest)
          → (apply_poll host json id poll now t).1 ≢ ok (merged, tools, true))
        → (apply_poll host json id poll now t).0.messages ≡ t.messages
    apply_poll-messages unfinished = elim apply_poll_cases [
      | inl (same, never) ↦ same
      | inr (merged, done, made) ↦ absurd (unfinished merged poll.tool_requests done)
    ]

    -- If `apply_poll` answers that the run is complete, then the run is in a terminal state and this
    -- was its last page, its one pending reply is settled with the status and the text of the run,
    -- and no other message changes.
    pub apply_poll-Publication :
        (merged : StoredRequest) (tools : List ToolRequest)
        → (apply_poll host json id poll now t).1 ≡ ok (merged, tools, true)
        → Publication merged poll t.messages (apply_poll host json id poll now t).0.messages
    apply_poll-Publication merged tools h = elim apply_poll_cases [
      | inl (same, never) ↦ absurd (never merged tools h)
      | inr (merged', done, made) ↦ let same : merged' ≡ merged = cc in rw same at made
    ]
