-- ===== src/Validation/Endpoints.antt =====
-- Provider endpoints: `endpoint`, `private_http` and `allowed_address` of
-- src-tauri/src/validation.rs.
use Prim.Native.Nat.{bit_and}
use Prim.Native.Char.{code}
use desktop_ai_dashboard.Prelude.{
  ℕ, String, Bool, true, false, not, ◌&&◌, ◌||◌, Option, none, some, List, [], ◌∷◌, ◌==◌, nat_eq,
  string_eq, leb, all, any, is_some, if◌then◌else◌, AppResult, ok, ◌>>=◌, ◌>>◌, reject_if, ok_or,
  invalid,
}
use desktop_ai_dashboard.Prelude.Texts.{any_char, is_whitespace, is_alphanumeric}
use desktop_ai_dashboard.Prelude.Scans.{
  chars, trim_matches, starts_with, has_infix, split, split_once, same_chars,
}
use desktop_ai_dashboard.Prelude.Addresses.{IpAddr, v4, v6, parse_ip, is_loopback}
use desktop_ai_dashboard.Host.{Host}
use desktop_ai_dashboard.Validation.{single_line}

abbrev is_bracket : ℕ → Bool
is_bracket c = c == b'[' || c == b']'

-- The address that a host name is, brackets aside.
abbrev pub host_address : String → Option IpAddr
host_address host = parse_ip (trim_matches is_bracket (chars host))

abbrev ends_with : List ℕ → List ℕ → Bool
ends_with p [] = same_chars p []
ends_with p (c ∷ s) = same_chars p (c ∷ s) || ends_with p s

-- `ip.is_loopback()`, and the range 100.64.0.0/10: the mask 0xffc0_0000 keeps the first octet and
-- the two high bits of the second.
abbrev is_private : IpAddr → Bool
is_private (v4 a b c d) = is_loopback (v4 a b c d) || a == 100 && bit_and b 0xc0 == 64
is_private (v6 s) = is_loopback (v6 s)

unfoldable pub private_http : String → Bool
private_http host =
    let name = trim_matches is_bracket (chars host) in
    if same_chars name (chars "localhost") || ends_with (chars ".ts.net") name
    then true
    else elim (parse_ip name) [ some ip ↦ is_private ip | none ↦ false ]

abbrev first_segment : List ℕ → ℕ
first_segment [] = 0
first_segment (s ∷ rest) = s

-- `::ffff:a.b.c.d`.
abbrev is_mapped : List ℕ → Bool
is_mapped (a ∷ (b ∷ (c ∷ (d ∷ (e ∷ (f ∷ rest)))))) =
    a == 0 && b == 0 && c == 0 && d == 0 && e == 0 && f == 0xffff
is_mapped _ = false

unfoldable pub allowed_address : IpAddr → Bool
allowed_address (v4 a b c d) =
    not (a == 169 && b == 254)
    && not (a == 0)
    && not (leb 224 a && leb a 239)
    && not (a == 255 && b == 255 && c == 255 && d == 255)
allowed_address (v6 s) =
    not (all (λ g. g == 0) s)
    && not (bit_and (first_segment s) 0xff00 == 0xff00)
    && not (bit_and (first_segment s) 0xffc0 == 0xfe80)
    && not (is_mapped s)

abbrev path_or_empty : Option (List ℕ × List ℕ) → List ℕ
path_or_empty none = []
path_or_empty (some (authority, path)) = path

abbrev is_slash : ℕ → Bool
is_slash c = c == b'/'

abbrev is_path_char : ℕ → Bool
is_path_char c = is_alphanumeric c || c == b'/' || c == b'-' || c == b'_' || c == b'.' || c == b'~'

unfoldable pub is_bad_path : List ℕ → Bool
is_bad_path path =
    any (λ part. same_chars part (chars ".") || same_chars part (chars "..")) (split is_slash path)
    || has_infix (b'/' ∷ b'/' ∷ []) path
    || starts_with (b'/' ∷ []) path
    || not (all is_path_char path)

abbrev is_refused_address : Option IpAddr → Bool
is_refused_address none = false
is_refused_address (some ip) = not (allowed_address ip)

abbrev is_escape : ℕ → Bool
is_escape c = c == b'\\' || c == b'%' || c == b'?' || c == b'#' || is_whitespace c

-- `s.trim_end_matches('/')`.
unfoldable pub trim_slashes : String → String
trim_slashes String.[] = String.[]
trim_slashes (String.◌∷◌ c s) =
    let rest = trim_slashes s in
    if is_slash (code c) && rest == "" then String.[] else String.◌∷◌ c rest

unfoldable pub endpoint : Host → String → AppResult String
unfolding single_line private_http allowed_address is_bad_path trim_slashes
endpoint crates value = if value == "" then ok "" else (do
  single_line value 2048 false
  reject_if (any_char is_escape value) invalid
  url ← ok_or (crates.parse_url value) invalid
  host ← ok_or url.host invalid
  reject_if
      (not (url.username == "")
        || is_some url.password
        || any_char (λ c. c == b'@') value
        || not (url.scheme == "http" || url.scheme == "https")
        || url.scheme == "http" && not (private_http host))
      invalid
  (authority, rest) ← ok_or (split_once (b':' ∷ b'/' ∷ b'/' ∷ []) (chars value)) invalid
  reject_if (is_bad_path (path_or_empty (split_once (b'/' ∷ []) rest))) invalid
  reject_if (is_refused_address (host_address host)) invalid
  ok (trim_slashes url.text))
