-- ===== src/Prelude/Addresses.antt =====
-- `std::net::IpAddr`: the parser of its textual forms and the tests that the sources under
-- src-tauri/src make on an address.
use desktop_ai_dashboard.Prelude.Tests.{leb, ltb, if◌then◌else◌, ◌==◌, nat_eq}
use desktop_ai_dashboard.Prelude.Lists.{length, all}
use desktop_ai_dashboard.Prelude.Texts.{is_digit}
use desktop_ai_dashboard.Prelude.Scans.{split, split_once}
use Prim.Native.Nat.{ℕ, zero, suc, ◌+◌, ◌-◌, ◌*◌}
use mathlib.Core.Bool.{Bool, true, false, not, ◌&&◌, ◌||◌}
use mathlib.Core.Option.{Option, none, some}
use mathlib.Core.List.{List, [], ◌∷◌, ◌++◌}

-- The four octets of an IPv4 address, and the eight segments of an IPv6 address.
pub data IpAddr : Type 0 where
  v4 : ℕ → ℕ → ℕ → ℕ → IpAddr
  v6 : List ℕ → IpAddr

abbrev digits : ℕ → List ℕ → ℕ
digits n [] = n
digits n (c ∷ s) = digits (n * 10 + (c - 48)) s

abbrev no_leading_zero : List ℕ → Bool
no_leading_zero (c ∷ (d ∷ s)) = not (c == b'0')
no_leading_zero s = true

-- One to three decimal digits without a leading zero, at most 255.
unfoldable octet : List ℕ → Option ℕ
octet s =
    if ltb 0 (length s)
      && leb (length s) 3
      && all is_digit s
      && no_leading_zero s
      && leb (digits 0 s) 255
    then some (digits 0 s)
    else none

abbrev octets : Option ℕ → Option ℕ → Option ℕ → Option ℕ → Option IpAddr
octets (some a) (some b) (some c) (some d) = some (v4 a b c d)
octets _ _ _ _ = none

abbrev four_parts : List (List ℕ) → Option IpAddr
four_parts (a ∷ (b ∷ (c ∷ (d ∷ [])))) = octets (octet a) (octet b) (octet c) (octet d)
four_parts _ = none

unfoldable parse_v4 : List ℕ → Option IpAddr
unfolding octet
parse_v4 s = four_parts (split (λ c. c == b'.') s)

abbrev is_hex : ℕ → Bool
is_hex c = is_digit c || leb b'a' c && leb c b'f' || leb b'A' c && leb c b'F'

abbrev hex_value : ℕ → ℕ
hex_value c =
    let letter = if leb b'a' c then c - 87 else c - 55 in if is_digit c then c - 48 else letter

abbrev hex_digits : ℕ → List ℕ → ℕ
hex_digits n [] = n
hex_digits n (c ∷ s) = hex_digits (n * 16 + hex_value c) s

unfoldable hex_group : List ℕ → Option ℕ
hex_group s =
    if ltb 0 (length s) && leb (length s) 4 && all is_hex s then some (hex_digits 0 s) else none

abbrev embedded : Option IpAddr → Option (List ℕ)
embedded (some (v4 a b c d)) = some ((a * 256 + b) ∷ (c * 256 + d) ∷ [])
embedded _ = none

abbrev one_group : Option ℕ → Option (List ℕ) → Option (List ℕ)
one_group (some g) _ = some (g ∷ [])
one_group none v = v

abbrev add_group : Option ℕ → Option (List ℕ) → Option (List ℕ)
add_group (some g) (some gs) = some (g ∷ gs)
add_group _ _ = none

-- Hexadecimal groups; the last may be an IPv4 address, which stands for two of them.
unfoldable groups : Bool → List (List ℕ) → Option (List ℕ)
unfolding hex_group parse_v4
groups v4_tail [] = some []
groups v4_tail (p ∷ []) = one_group (hex_group p) (if v4_tail then embedded (parse_v4 p) else none)
groups v4_tail (p ∷ (q ∷ ps)) = add_group (hex_group p) (groups v4_tail (q ∷ ps))

unfoldable group_text : Bool → List ℕ → Option (List ℕ)
unfolding groups
group_text v4_tail [] = some []
group_text v4_tail (c ∷ s) = groups v4_tail (split (λ x. x == b':') (c ∷ s))

abbrev zeros : ℕ → List ℕ
zeros zero = []
zeros (suc n) = 0 ∷ zeros n

abbrev join : Option (List ℕ) → Option (List ℕ) → Option IpAddr
join (some head) (some tail) =
    if leb (length head + length tail) 7
    then some (v6 (head ++ (zeros (8 - (length head + length tail)) ++ tail)))
    else none
join _ _ = none

abbrev eight : Option (List ℕ) → Option IpAddr
eight (some gs) = if length gs == 8 then some (v6 gs) else none
eight none = none

-- At most one `::`, which stands for one or more groups of zeros.
unfoldable parse_v6 : List ℕ → Option IpAddr
unfolding group_text
parse_v6 s = elim (split_once (b':' ∷ b':' ∷ []) s) [
  | some (head, tail) ↦ join (group_text false head) (group_text true tail)
  | none ↦ eight (group_text true s)
]

unfoldable pub parse_ip : List ℕ → Option IpAddr
unfolding parse_v4 parse_v6
parse_ip s = elim (parse_v4 s) [ some ip ↦ some ip | none ↦ parse_v6 s ]

abbrev is_v6_loopback : List ℕ → Bool
is_v6_loopback (a ∷ (b ∷ (c ∷ (d ∷ (e ∷ (f ∷ (g ∷ (h ∷ [])))))))) =
    a == 0 && b == 0 && c == 0 && d == 0 && e == 0 && f == 0 && g == 0 && h == 1
is_v6_loopback _ = false

-- `IpAddr::is_loopback`.
abbrev pub is_loopback : IpAddr → Bool
is_loopback (v4 a b c d) = a == 127
is_loopback (v6 s) = is_v6_loopback s
