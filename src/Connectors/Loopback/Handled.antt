-- ===== src/Connectors/Loopback/Handled.antt =====
-- Which requests `handle_request` of src-tauri/src/connectors/loopback.rs takes a code from.
use Prim.Native.String.{◌++◌ as append}
use desktop_ai_dashboard.Prelude.Scans.{has_infix}
use desktop_ai_dashboard.Prelude.{
  All, false, ℕ, ◌≤◌, String, Bool, true, some, List, [], ◌∷◌, ◌++◌, ◌≡◌, ◌⊎◌, nat_eq, string_eq,
  length,
}
use desktop_ai_dashboard.Host.{Host}
use desktop_ai_dashboard.Connectors.Loopback.Requests.{
  Read, ended, received, not_yet, count_hosts, split_char,
}

-- An answer after which the loop goes on.
abbrev pub IsOpen : Bool × Read → Type 0
IsOpen (over, ended) = ⊥
IsOpen (over, received bytes late) = over ≡ false
IsOpen (over, not_yet) = over ≡ false

-- The bytes of the answers, in order.
abbrev pub gathered : List (Bool × Read) → List ℕ
gathered [] = []
gathered ((over, received bytes late) ∷ rest) = bytes ++ gathered rest
gathered ((over, ended) ∷ rest) = gathered rest
gathered ((over, not_yet) ∷ rest) = gathered rest

-- Where a request of these bytes ends: at a read that came before the time for reading was up, and
-- before the attempt was over, with which the headers were complete.
abbrev pub EndsIn : List ℕ → List (Bool × Read) → List ℕ → Type 0
EndsIn request reads bytes =
    (before : List (Bool × Read)) × (last : List ℕ) × (after : List (Bool × Read)) × (reads
      ≡ before ++ (false, received last false) ∷ after)
    × All IsOpen before
    × (bytes ≡ request ++ (gathered before ++ last))
    × (has_infix (13 ∷ 10 ∷ 13 ∷ 10 ∷ []) bytes ≡ true)
    × (length bytes ≤ 8192)

module _ (crates : Host) (port : ℕ) (expected path : String) where
  -- The lines of a request whose code is taken.
  abbrev pub IsRequest : List String → String → Type 0
  IsRequest [] target = ⊥
  IsRequest (first ∷ rest) target =
      (version : String) × (split_char 32 first ≡ "GET" ∷ target ∷ version ∷ [])
      × ((version ≡ "HTTP/1.1") ⊎ (version ≡ "HTTP/1.0"))
      × (count_hosts crates port expected path rest ≡ some 1)
