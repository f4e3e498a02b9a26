-- ===== src/Browser/Addresses.antt =====
-- Which addresses the owned browser may open: `validate_url`, `validate_url_with_callback`,
-- `service_url` and `public_url` of src-tauri/src/browser.rs.
use Prim.Native.String.{len, ◌++◌}
use desktop_ai_dashboard.Prelude.{
  ℕ, String, Bool, true, not, ◌&&◌, ◌||◌, Option, none, some, List, [], ◌∷◌, ◌==◌, string_eq,
  nat_eq, ltb, is_some, is_some_and, if◌then◌else◌, AppError, AppResult, ok, err, ok_or, reject_if,
  ◌>>=◌, ◌>>◌, is_ok, contains,
}
use desktop_ai_dashboard.Prelude.Texts.{any_char, is_control, is_whitespace}
use desktop_ai_dashboard.Prelude.Scans.{
  chars, has_infix, until, split_once, trim_matches, trim_end_matches, to_ascii_lowercase,
  eq_ignore_ascii_case,
}
use desktop_ai_dashboard.Prelude.Addresses.{parse_ip, is_loopback}
use desktop_ai_dashboard.Host.{Host, Url}

abbrev pub max_url_bytes : ℕ
max_url_bytes = 4096

abbrev pub invalid_url : AppError
invalid_url = record {
  code = "browser_url_rejected";
  message =
      "Use an HTTPS address without embedded credentials. Restricted destinations and non-web protocols are not allowed.";
}

unfoldable pub denied_host : String → Bool
denied_host host = has_infix (chars "higgsfield") (to_ascii_lowercase (chars host))

abbrev is_bracket : ℕ → Bool
is_bracket c = c == b'[' || c == b']'

abbrev is_dot : ℕ → Bool
is_dot c = c == b'.'

-- `host.trim_end_matches('.').eq_ignore_ascii_case(name)`.
unfoldable pub is_named : String → String → Bool
is_named host name = eq_ignore_ascii_case (trim_end_matches is_dot (chars host)) (chars name)

-- The test `loopback` of `validate_url`.
unfoldable pub is_loopback_host : String → Bool
is_loopback_host host = elim (parse_ip (trim_matches is_bracket (chars host))) [
  | some ip ↦ is_loopback ip
  | none ↦ is_named host "localhost"
]

abbrev ends_authority : ℕ → Bool
ends_authority c = c == b'/' || c == b'?' || c == b'#'

abbrev marks_user : Option (List ℕ × List ℕ) → Bool
marks_user none = true
marks_user (some (scheme, rest)) = contains (until ends_authority rest) b'@'

-- Whether the authority, as written, has an '@', or there is no authority.
unfoldable pub has_userinfo : String → Bool
has_userinfo raw = marks_user (split_once (b':' ∷ b'/' ∷ b'/' ∷ []) (chars raw))

unfoldable pub is_malformed : String → Bool
is_malformed raw =
    raw == ""
    || ltb max_url_bytes (len raw)
    || any_char (λ c. is_control c || is_whitespace c) raw
    || any_char (λ c. c == b'\\') raw

-- The refusals of `validate_url` that look at the parsed URL.
unfoldable pub is_refused : Url → String → Bool → Bool
is_refused url host allow_loopback =
    not (url.username == "")
    || is_some url.password
    || denied_host host
    || is_loopback_host host && not allow_loopback
    || is_named host "tauri.localhost"
    || not
        (url.scheme == "https" || url.scheme == "http" && allow_loopback && is_loopback_host host)

module _ (crates : Host) where
  unfoldable pub validate_url : String → Bool → AppResult Url
  validate_url raw allow_loopback = do
    reject_if (is_malformed raw) invalid_url
    url ← ok_or (crates.parse_url raw) invalid_url
    host ← ok_or url.host invalid_url
    reject_if (is_refused url host allow_loopback) invalid_url
    reject_if (has_userinfo raw) invalid_url
    ok url

  unfoldable pub validate_url_with_callback : String → Bool → (Url → Bool) → AppResult Url
  unfolding validate_url
  validate_url_with_callback raw allow_loopback pending = elim (validate_url raw allow_loopback) [
    | ok url ↦ ok url
    | err e ↦ do
      url ← validate_url raw true
      reject_if
          (not
            (url.scheme == "http" && is_some_and url.host (λ h. h == "127.0.0.1") && pending url))
          invalid_url
      ok url
  ]

  unfoldable pub public_url : Url → Option String
  unfolding validate_url
  public_url url =
      if url.text == "about:blank"
      then some "about:blank"
      else if is_ok (validate_url url.text true)
      then some (url.origin ++ "/")
      else none

pub data BrowserService : Type 0 where
  home : BrowserService
  gmail : BrowserService
  google_calendar : BrowserService
  custom : BrowserService

unfoldable pub service_url : Host → BrowserService → Option String → Bool → AppResult Url
unfolding validate_url
service_url crates home none qa = ok_or (crates.parse_url "about:blank") invalid_url
service_url crates gmail none qa = validate_url crates "https://mail.google.com/" qa
service_url crates google_calendar none qa = validate_url crates "https://calendar.google.com/" qa
service_url crates custom (some raw) qa = validate_url crates raw qa
service_url crates _ _ qa = err invalid_url
