-- ===== src/Connectors/Loopback.antt =====
-- The loopback callback of src-tauri/src/connectors/loopback.rs: `matches_callback_url` and the
-- helpers that it calls.
pub mod Comparison
pub mod Callbacks
pub mod Requests
pub mod Codes
pub mod Lines
pub mod Handled
pub mod Waiting
use Prim.Native.Nat.{bit_or, bit_xor}
use Prim.Native.String.{len}
use desktop_ai_dashboard.Prelude.{
  ℕ, String, Bool, true, false, not, ◌&&◌, ◌||◌, Option, none, some, List, [], ◌∷◌, ◌==◌, string_eq,
  nat_eq, leb, ltb, is_some, is_some_and, length, retain, if◌then◌else◌,
}
use desktop_ai_dashboard.Prelude.Texts.{bytes, is_digit}
use desktop_ai_dashboard.Host.{Url}

abbrev pub max_request_bytes : ℕ
max_request_bytes = 8192

abbrev is_hexdigit : ℕ → Bool
is_hexdigit c = is_digit c || leb b'a' c && leb c b'f' || leb b'A' c && leb c b'F'

-- Every '%' is followed by two hexadecimal digits; the scan goes on behind them.
unfoldable pub valid_encoding : List ℕ → Bool
valid_encoding [] = true
valid_encoding (b ∷ []) = not (b == b'%')
valid_encoding (b ∷ (c ∷ [])) = not (b == b'%') && not (c == b'%')
valid_encoding (b ∷ (c ∷ (d ∷ rest))) =
    if b == b'%'
    then is_hexdigit c && is_hexdigit d && valid_encoding rest
    else valid_encoding (c ∷ (d ∷ rest))

-- `a.iter().zip(b).fold(0u8, |diff, (a, b)| diff | (a ^ b))`.
unfoldable pub difference : ℕ → List ℕ → List ℕ → ℕ
difference diff [] b = diff
difference diff (x ∷ a) [] = diff
difference diff (x ∷ a) (y ∷ b) = difference (bit_or diff (bit_xor x y)) a b

unfoldable pub constant_time_eq : List ℕ → List ℕ → Bool
unfolding difference
constant_time_eq a b = if not (length a == length b) then false else difference 0 a b == 0

-- `states.len() == 1 && constant_time_eq(states[0].1.as_bytes(), state.as_bytes())`.
abbrev pub one_state : List (String × String) → String → Bool
one_state ((k, v) ∷ []) state = constant_time_eq (bytes v) (bytes state)
one_state _ state = false

abbrev pub query_or_empty : Option String → String
query_or_empty none = ""
query_or_empty (some q) = q

unfoldable pub matches_callback_url : Url → ℕ → String → String → Bool
matches_callback_url url port path state =
    if not (url.scheme == "http")
      || not (is_some_and url.host (λ h. h == "127.0.0.1"))
      || not (is_some_and url.port (λ p. p == port))
      || not (url.username == "")
      || is_some url.password
      || is_some url.fragment
      || not (url.path == path)
      || ltb max_request_bytes (len url.text)
    then false
    else valid_encoding (bytes (query_or_empty url.query))
      && one_state (retain (λ e. e.0 == "state") url.query_pairs) state
