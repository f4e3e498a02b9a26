-- ===== src/Validation.antt =====
-- Input checks: src-tauri/src/validation.rs.
pub mod Endpoints
use Prim.Native.String.{len}
use desktop_ai_dashboard.Prelude.{
  ℕ, String, Bool, not, ◌&&◌, ◌||◌, ◌==◌, string_eq, ltb, leb, AppResult, ◌>>=◌, ◌>>◌, reject_if,
  ok_or, invalid,
}
use desktop_ai_dashboard.Prelude.Texts.{all_chars, any_char, is_control, is_whitespace, trim}
use desktop_ai_dashboard.Host.{Host}

abbrev pub max_text : ℕ
max_text = 32768

abbrev pub max_context : ℕ
max_context = 131072

abbrev pub max_version : ℕ
max_version = 9007199254740990

abbrev has_nul : String → Bool
has_nul value = any_char (λ c. leb c 0) value

unfoldable pub text : String → ℕ → Bool → AppResult (Unit {0})
text value max empty =
    reject_if (ltb max (len value) || not empty && trim value == "" || has_nul value) invalid

unfoldable pub single_line : String → ℕ → Bool → AppResult (Unit {0})
single_line value max empty = do text value max empty; reject_if (any_char is_control value) invalid

unfoldable pub model : String → Bool → AppResult (Unit {0})
model value empty = do single_line value 200 empty; reject_if (any_char is_whitespace value) invalid

unfoldable pub id : Host → String → AppResult (Unit {0})
id host value = do
  parsed ← ok_or (host.parse_uuid value) invalid
  reject_if (not (parsed.canonical == value) || parsed.is_nil) invalid

unfoldable pub api_key : String → AppResult (Unit {0})
api_key value =
    reject_if
      (value == "" || ltb 4096 (len value) || not (all_chars (λ c. leb 33 c && leb c 126) value))
      invalid
