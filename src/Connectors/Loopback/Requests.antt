-- ===== src/Connectors/Loopback/Requests.antt =====
-- The requests to the callback listener of src-tauri/src/connectors/loopback.rs: `parse_target`,
-- `parse_request`, the reading of `handle_request` and the loop of `wait_for_callback`. Texts are
-- taken apart as Rust's `str` does it; what the sockets, the clock and the URL parser answer is an
-- argument.
use Prim.Native.Char.{code}
use Prim.Native.String.{len, ◌++◌ as append, count}
use desktop_ai_dashboard.Prelude.{
  ℕ, zero, suc, ◌/◌, ◌%◌, String, Bool, not, ◌&&◌, ◌||◌, Option, none, some, List, [], ◌∷◌, ◌++◌,
  ◌==◌, nat_eq, string_eq, ltb, leb, length, is_some, is_some_and, if◌then◌else◌,
}
use desktop_ai_dashboard.Prelude.Texts.{any_char, all_chars, trim}
use desktop_ai_dashboard.Prelude.Scans.{chars, eq_ignore_ascii_case, has_infix}
use desktop_ai_dashboard.Host.{Host, Url}
use desktop_ai_dashboard.Connectors.Loopback.{matches_callback_url, max_request_bytes}

pub data ParsedCallback : Type 0 where
  ignore : ParsedCallback
  denied : ParsedCallback
  code_given : String → ParsedCallback

-- `s.split(c).next()`: the text before the first such character.
unfoldable pub before_char : ℕ → String → String
before_char c String.[] = String.[]
before_char c (String.◌∷◌ d s) =
    let rest = before_char c s in if code d == c then String.[] else String.◌∷◌ d rest

abbrev add_char : String → List String → List String
add_char d [] = d ∷ []
add_char d (p ∷ ps) = append d p ∷ ps

-- `s.split(c)`.
unfoldable pub split_char : ℕ → String → List String
split_char c String.[] = "" ∷ []
split_char c (String.◌∷◌ d s) =
    let parts = split_char c s in
    if code d == c then "" ∷ parts else add_char (String.◌∷◌ d "") parts

-- What follows a prefix, as code points.
unfoldable pub strip_codes : List ℕ → String → Option String
strip_codes [] s = some s
strip_codes (p ∷ ps) String.[] = none
strip_codes (p ∷ ps) (String.◌∷◌ d s) =
    let rest = strip_codes ps s in if code d == p then rest else none

abbrev pub add_left : String → Option (String × String) → Option (String × String)
add_left d none = none
add_left d (some (a, b)) = some (append d a, b)

-- `s.split_once(pattern)`.
unfoldable pub split_at : List ℕ → String → Option (String × String)
split_at p String.[] = elim (strip_codes p "") [ some rest ↦ some ("", rest) | none ↦ none ]
split_at p (String.◌∷◌ d s) =
    let later = add_left (String.◌∷◌ d "") (split_at p s) in
    elim (strip_codes p (String.◌∷◌ d s)) [ some rest ↦ some ("", rest) | none ↦ later ]

abbrev pub crlf : List ℕ
crlf = 13 ∷ 10 ∷ []

-- `s.split("\r\n")`, at most as many times as the fuel says; each piece takes a character or more.
abbrev pub lines_of : ℕ → String → List String
lines_of zero s = s ∷ []
lines_of (suc fuel) s = elim (split_at crlf s) [
  | some (line, rest) ↦ line ∷ lines_of fuel rest
  | none ↦ s ∷ []
]

-- The decimal digits of a port, at most five.
abbrev digit_text : ℕ → String
digit_text n =
    if n == 0
    then "0"
    else if n == 1
    then "1"
    else if n == 2
    then "2"
    else if n == 3
    then "3"
    else if n == 4
    then "4"
    else if n == 5
    then "5"
    else if n == 6
    then "6"
    else if n == 7
    then "7"
    else if n == 8
    then "8"
    else "9"

abbrev print_digits : ℕ → ℕ → String → String
print_digits zero n rest = rest
print_digits (suc fuel) n rest =
    if ltb n 10
    then append (digit_text n) rest
    else print_digits fuel (n / 10) (append (digit_text (n % 10)) rest)

unfoldable pub print_port : ℕ → String
print_port port = print_digits 5 port ""

abbrev pub Found : Type 0
Found = Option String × Option String

-- The loop over `query_pairs` of `parse_target`: the code and the error, none if either stands twice.
unfoldable pub collect : Found → List (String × String) → Option Found
collect found [] = some found
collect (c, e) ((key, value) ∷ rest) =
    let with_code = collect (some value, e) rest in
    let with_error = collect (c, some value) rest in
    let neither = collect (c, e) rest in
    if key == "code"
    then if is_some c then none else with_code
    else if key == "error"
    then if is_some e then none else with_error
    else neither

abbrev pub is_code : String → Bool
is_code c = not (c == "") && leb (len c) 4096 && all_chars (λ b. leb 33 b && leb b 126) c

abbrev pub verdict : Option Found → ParsedCallback
verdict (some (none, some e)) = if e == "" then ignore else denied
verdict (some (some c, none)) = if is_code c then code_given c else ignore
verdict _ = ignore

module _ (crates : Host) (port : ℕ) (expected path : String) where
  abbrev pub judge_url : Option Url → ParsedCallback
  judge_url none = ignore
  judge_url (some url) =
      if not (matches_callback_url url port path expected)
      then ignore
      else verdict (collect (none, none) url.query_pairs)

  unfoldable pub parse_target : String → ParsedCallback
  parse_target target =
      if not (before_char b'?' target == path) || any_char (λ c. c == b'#') target
      then ignore
      else judge_url
          (crates.parse_url (append "http://127.0.0.1:" (append (print_port port) target)))

  -- The count of `Host` lines; none if a line has no colon or names another host.
  unfoldable pub count_hosts : List String → Option ℕ
  count_hosts [] = some 0
  count_hosts (line ∷ rest) =
      let later = count_hosts rest in
      elim (split_at (b':' ∷ []) line) [
        | none ↦ none
        | some (key, value) ↦
            if eq_ignore_ascii_case (chars key) (chars "host")
            then if trim value == append "127.0.0.1:" (print_port port)
              then elim later [ some n ↦ some (suc n) | none ↦ none ]
              else none
            else later
      ]

  abbrev pub parse_parts : List String → List String → ParsedCallback
  parse_parts (method ∷ (target ∷ (version ∷ []))) lines =
      if not (method == "GET") || not (version == "HTTP/1.1" || version == "HTTP/1.0")
      then ignore
      else if is_some_and (count_hosts lines) (λ n. n == 1)
      then parse_target target
      else ignore
  parse_parts _ lines = ignore

  abbrev pub parse_lines : List String → ParsedCallback
  parse_lines [] = ignore
  parse_lines (first ∷ rest) = parse_parts (split_char 32 first) rest

  -- The text is none when the bytes are not UTF-8.
  unfoldable pub parse_request : Option String → ParsedCallback
  parse_request none = ignore
  parse_request (some text) =
      if ltb max_request_bytes (len text)
      then ignore
      else elim (split_at (13 ∷ 10 ∷ 13 ∷ 10 ∷ []) text) [
        | none ↦ ignore
        | some (headers, body) ↦ parse_lines (lines_of (count headers) headers)
      ]

-- One answer of the socket: it has ended, in whatever way, it gave bytes, or there are none yet. With
-- bytes comes whether the attempt is over by then, by its deadline or by a cancellation.
pub data Read : Type 0 where
  ended : Read
  received : List ℕ → Bool → Read
  not_yet : Read

-- The loop of `handle_request`: the bytes that are parsed, or none. Before each answer it is known
-- whether the time for reading is up or the sign-in is cancelled.
unfoldable pub read_request : List ℕ → List (Bool × Read) → Option (List ℕ)
read_request request [] = none
read_request request ((over, r) ∷ rest) =
    let again = read_request request rest in
    let more : List ℕ → Option (List ℕ) =
      λ (bytes : List ℕ). read_request (request ++ bytes) rest in
    if over then none else elim r [
      | ended ↦ none
      | not_yet ↦ again
      | received bytes late ↦
          if ltb max_request_bytes (length (request ++ bytes))
          then none
          else if has_infix (13 ∷ 10 ∷ 13 ∷ 10 ∷ []) (request ++ bytes)
          then if late then none else some (request ++ bytes)
          else more bytes
    ]

-- `handle_request`, up to the response that it writes; `decode` is `str::from_utf8`.
unfoldable pub handle_request :
    (List ℕ → Option String) → Host → ℕ → String → String → List (Bool × Read) → ParsedCallback
handle_request decode crates port expected path reads = elim (read_request [] reads) [
  | some bytes ↦ parse_request crates port expected path (decode bytes)
  | none ↦ ignore
]
