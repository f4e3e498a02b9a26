-- ===== src/Connectors/Scopes.antt =====
-- The scopes that src-tauri/src/connectors.rs accepts: `validate_scopes` and `granted_scopes`.
use Prim.Native.Char.{code}
use desktop_ai_dashboard.Prelude.{
  ℕ, String, Bool, true, false, not, ◌||◌, Option, none, some, List, [], ◌∷◌, ◌++◌, ◌==◌, nat_eq,
  string_eq, ltb, any, contains, length, if◌then◌else◌, AppError, AppResult, ok, err, invalid,
  reject_if, is_ok, ◌>>=◌, ◌>>◌,
}
use desktop_ai_dashboard.Connectors.Grants.Types.{
  gmail_metadata_scope, gmail_readonly_scope, calendar_readonly_scope,
}

abbrev pub invalid_scope : AppError
invalid_scope = record {
  code = "invalid_scope";
  message = "Requested scope is not permitted for this connector.";
}

abbrev pub scope_error : AppError
scope_error = record {
  code = "connector_scope";
  message = "Google did not confirm the requested permission grant. No connection was enabled.";
}

abbrev pub allowed_scopes : List String
allowed_scopes = gmail_metadata_scope ∷ gmail_readonly_scope ∷ calendar_readonly_scope ∷ []

-- The loop of `validate_scopes`; `before` is `scopes[..index]`.
unfoldable pub check_scopes : List String → List String → AppResult (Unit {0})
check_scopes before [] = ok tt
check_scopes before (scope ∷ rest) =
    let later = check_scopes (before ++ scope ∷ []) rest in
    if not (contains allowed_scopes scope) || contains before scope
    then err invalid_scope
    else later

unfoldable pub validate_scopes : List String → AppResult (Unit {0})
validate_scopes scopes =
    if length scopes == 0 || ltb 8 (length scopes) then err invalid else check_scopes [] scopes

abbrev is_ascii_whitespace : ℕ → Bool
is_ascii_whitespace c = c == 32 || c == 9 || c == 10 || c == 12 || c == 13

abbrev add_word : String → List String → List String
add_word w ws = if w == "" then ws else w ∷ ws

-- The word that the text starts with, if any, and the words behind it.
unfoldable pub split_words : String → String × List String
split_words String.[] = ("", [])
split_words (String.◌∷◌ c s) =
    let (w, ws) = split_words s in
    if is_ascii_whitespace (code c) then ("", add_word w ws) else (String.◌∷◌ c w, ws)

unfoldable pub split_ascii_whitespace : String → List String
split_ascii_whitespace s = let (w, ws) = split_words s in add_word w ws

abbrev pub confirmed_scopes : Option String → List String → Bool → AppResult (List String)
confirmed_scopes (some scope) requested refresh = ok (split_ascii_whitespace scope)
confirmed_scopes none requested true = ok requested
confirmed_scopes none requested false = err scope_error

unfoldable pub granted_scopes : Option String → List String → Bool → AppResult (List String)
granted_scopes scope requested refresh = do
  scopes ← confirmed_scopes scope requested refresh
  reject_if (not (is_ok (validate_scopes scopes))) scope_error
  reject_if (any (λ s. not (contains requested s)) scopes) scope_error
  ok scopes
