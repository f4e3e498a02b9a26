-- ===== src/Store/Requests.antt =====
-- The life of one request in src-tauri/src/store.rs: `start_captured` and `finish`.
use desktop_ai_dashboard.Prelude.{
  ℕ, String, Bool, true, false, List, [], ◌∷◌, ◌++◌, ◌≡◌, refl, any, All, Option, arith, inl, inr,
  contains, string_eq, nat_eq, ◌==◌, eq_iff, ok, err, stale,
}
use desktop_ai_dashboard.Host.{Host}
use desktop_ai_dashboard.Runtime.Dto.{StoredRequest}
use desktop_ai_dashboard.Store.Tables.{Status, is_pending, MessageRow, Tables, update, count}
use desktop_ai_dashboard.Store.Chats.{start_captured, finish, finishable, exchange_rows}
use desktop_ai_dashboard.Store.Rows.{count-append, count-update_zero, count-le_of, any_false→count}
use desktop_ai_dashboard.Store.Invariant.{IsSound}
use desktop_ai_dashboard.Store.Outcomes.{start_outcome, finished, finish_outcome}

-- A fresh request identifier stands on no message.
unused_nowhere :
    (ids : List String) (request : String) (ms : List MessageRow)
    → contains ids request ≡ false
    → All (λ m. contains ids m.request_id ≡ true) ms
    → any (λ m. m.request_id == request) ms ≡ false
unused_nowhere ids request [] new used = refl
unused_nowhere ids request (m ∷ ms) new (h, used) =
    ground (arith, eq_iff m.request_id request, unused_nowhere ids request ms new used)

-- `finish` fails where no row awaits it.
finish_none :
    (id request : String) (generation : ℕ) (status : Status) (content now : String) (t : Tables)
    → count (finishable id request generation t.provider.generation) t.messages ≡ 0
    → finish id request generation status content now t ≡ (t, err stale)
finish_none id request generation status content now t gone =
    elim (finish_outcome id request generation status content now t) [
      | inl failed ↦ failed
      | inr (one, done) ↦ absurd (omega (arith, one, gone))
    ]

settled_none :
    (id request : String) (generation current : ℕ) (q : MessageRow → Bool) (status : Status)
    (content : String) (ms : List MessageRow)
    → is_pending status ≡ false
    → ((m : MessageRow) → finishable id request generation current m ≡ true → q m ≡ true)
    → count
        (finishable id request generation current)
        (update q (λ m. record m { status = status; content = content }) ms)
      ≡ 0
settled_none id request generation current q status content ms over covers =
    count-update_zero (finishable id request generation current) q _ ms (λ m. ground arith) covers

finish_one :
    (id request : String) (generation : ℕ) (status : Status) (content now : String) (t : Tables)
    → count (finishable id request generation t.provider.generation) t.messages ≡ 1
    → finish id request generation status content now t
      ≡ (finished id request generation status content now t, ok tt)
unfolding finish
finish_one id request generation status content now t one = ground arith

-- Behind a new exchange exactly its reply awaits the request.
one_awaits :
    (ids : List String) (ms : List MessageRow) (id content request : String) (generation : ℕ)
    (user_id reply_id now : String)
    → contains ids request ≡ false
    → All (λ m. contains ids m.request_id ≡ true) ms
    → count
        (finishable id request generation generation)
        (ms ++ exchange_rows user_id reply_id id content request now generation)
      ≡ 1
one_awaits ids ms id content request generation user_id reply_id now new used = ground (
  arith,
  count-append (finishable id request generation generation) ms
      (exchange_rows user_id reply_id id content request now generation),
  any_false→count (λ m. m.request_id == request) ms (unused_nowhere ids request ms new used),
  count-le_of (finishable id request generation generation) (λ m. m.request_id == request) ms
      (λ m h. ground arith),
  eq_iff id id,
  eq_iff request request,
)

module _ (host : Host) where
  -- In sound tables, a request that is started with the generation that the provider has can be
  -- finished exactly once: `finish` with any status but pending succeeds, and a further `finish`
  -- right after it, with any status, is stale and changes nothing.
  pub start-finish_once :
      (id content request : String) (generation : ℕ) (runtime : Option StoredRequest)
      (user_id reply_id now : String) (status status' : Status) (reply reply' later later' : String)
      (t : Tables)
      → IsSound t
      → t.provider.generation ≡ generation
      → is_pending status ≡ false
      → (start_captured host id content request generation runtime user_id reply_id now t).1 ≡ ok tt
      → let u =
          (start_captured host id content request generation runtime user_id reply_id now t).0 in
        let v = finished id request generation status reply later u in
        (finish id request generation status reply later u ≡ (v, ok tt))
        × (finish id request generation status' reply' later' v ≡ (v, err stale))
  start-finish_once id content request generation runtime user_id reply_id now status status' reply
        reply' later later' t sound same over result =
      elim (start_outcome host id content request generation runtime user_id reply_id now t) [
        | inl (e, failed) ↦ absurd (let bad = rw failed at result in cc)
        | inr (may, done) ↦ rw done (
          finish_one id request generation status reply later _ (
              rw same (
                one_awaits t.request_ids t.messages id content request generation user_id reply_id
                  now may.unused sound.used)),
          finish_none id request generation status' reply' later' _ (
              settled_none id request generation t.provider.generation
                (finishable id request generation t.provider.generation) status reply
                (t.messages ++ exchange_rows user_id reply_id id content request now generation)
                over (λ m h. h)),
        )
      ]
