-- ===== src/Provider.antt =====
-- The direct provider client of src-tauri/src/provider.rs: what it makes of a response, of the list
-- of models and of the saved references. The request itself is not modelled.
pub mod Selection
pub mod Replies
pub mod References
use Prim.Native.Char.{Char, code}
use Prim.Native.String.{◌++◌ as append}
use desktop_ai_dashboard.Prelude.{
  ℕ, ◌+◌, ◌-◌, ◌*◌, String, Bool, true, false, not, ◌&&◌, ◌||◌, Option, none, some, List, [], ◌∷◌,
  ◌++◌, ◌==◌, nat_eq, string_eq, ltb, leb, all, any, length, contains, is_some, is_ok,
  if◌then◌else◌, AppError, AppResult, ok, err, ◌>>=◌, ◌>>◌, reject_if, ok_or,
}
use desktop_ai_dashboard.Prelude.Texts.{is_digit}
use desktop_ai_dashboard.Prelude.Scans.{
  chars, strip_prefix, split, split_once, has_infix, same_chars,
}
use desktop_ai_dashboard.Host.{Host}
use desktop_ai_dashboard.Host.Json.{Value, member, as_array, as_str}
use desktop_ai_dashboard.Validation

abbrev pub malformed : AppError
malformed = record {
  code = "provider_response";
  message = "The provider returned an unsupported, empty, or oversized response.";
}

abbrev provider_auth : AppError
provider_auth = record {
  code = "provider_auth";
  message = "The provider rejected access. Check the API key and permissions.";
}

abbrev rate_limit : AppError
rate_limit = record {
  code = "provider_rate_limit";
  message = "The provider is rate-limiting requests. Try again later.";
}

abbrev redirect : AppError
redirect = record {
  code = "provider_redirect";
  message =
      "The provider redirected this request. Configure its final API endpoint; redirects are not followed.";
}

abbrev http_error : AppError
http_error = record {
  code = "provider_http";
  message =
      "The provider rejected the request. Check the endpoint, model, and provider availability.";
}

abbrev pub model_unavailable : AppError
model_unavailable = record {
  code = "model_unavailable";
  message =
      "The selected model was not returned by this provider. Choose an available model and check again.";
}

abbrev pub models_empty : AppError
models_empty = record {
  code = "models_empty";
  message = "This provider returned no models. Refresh the list or check your connection settings.";
}

abbrev pub max_response : ℕ
max_response = 524288

-- `is_success`, and the error of a status that is not one.
abbrev pub is_success : ℕ → Bool
is_success status = leb 200 status && leb status 299

unfoldable pub status_error : ℕ → AppError
status_error status =
    if status == 401 || status == 403
    then provider_auth
    else if status == 429
    then rate_limit
    else if leb 300 status && leb status 399
    then redirect
    else http_error

-- The loop of `response` over the chunks of the body, each of which may fail to arrive.
unfoldable pub read_chunks : List ℕ → List (AppResult (List ℕ)) → AppResult (List ℕ)
read_chunks bytes [] = ok bytes
read_chunks bytes (err e ∷ rest) = err e
read_chunks bytes (ok chunk ∷ rest) =
    let more = read_chunks (bytes ++ chunk) rest in
    if ltb max_response (length bytes + length chunk) then err malformed else more

abbrev is_too_long : Option ℕ → Bool
is_too_long none = false
is_too_long (some n) = ltb max_response n

-- `response`, from its status, its announced length and its chunks.
unfoldable pub response :
    (List ℕ → Option Value) → ℕ → Option ℕ → List (AppResult (List ℕ)) → AppResult Value
unfolding status_error read_chunks
response parse_json status content_length chunks = do
  reject_if (not (is_success status)) (status_error status)
  reject_if (is_too_long content_length) malformed
  body ← read_chunks [] chunks
  ok_or (parse_json body) malformed

unfoldable pub contains_secret : String → Option String → Bool
contains_secret value none = false
contains_secret value (some key) = not (key == "") && has_infix (chars key) (chars value)

-- The identifier of one item of the list, checked.
unfoldable pub item_model : Option String → Value → AppResult String
unfolding Validation.model contains_secret
item_model key item = do
  named ← ok_or (member "id" item) malformed
  id ← ok_or (as_str named) malformed
  reject_if (not (is_ok (Validation.model id false))) malformed
  reject_if (contains_secret id key) malformed
  ok id

-- The loop of `parse_models`; `models` holds those of the items before.
unfoldable pub parse_items : Option String → List String → List Value → AppResult (List String)
unfolding item_model
parse_items key models [] = ok models
parse_items key models (item ∷ rest) =
    let dropped = parse_items key models rest in
    let later : String → AppResult (List String) = λ id. parse_items key (models ++ id ∷ []) rest in
    item_model key item >>= λ id. if contains models id then dropped else later id

unfoldable pub parse_models : Value → Option String → AppResult (List String)
unfolding parse_items
parse_models body key = do
  listed ← ok_or (member "data" body) malformed
  data_items ← ok_or (as_array listed) malformed
  reject_if (ltb 200 (length data_items)) malformed
  parse_items key [] data_items

abbrev decimal : ℕ → List ℕ → ℕ
decimal n [] = n
decimal n (c ∷ s) = decimal (n * 10 + (c - b'0')) s

-- `component` of `opus_version`: `parse::<u32>` refuses the empty text.
abbrev component : List ℕ → Option ℕ
component [] = none
component (c ∷ s) =
    if leb (length (c ∷ s)) 3 && all is_digit (c ∷ s) then some (decimal 0 (c ∷ s)) else none

abbrev minor_of : List (List ℕ) → ℕ
minor_of [] = 0
minor_of (part ∷ rest) = elim (component part) [ some n ↦ n | none ↦ 0 ]

abbrev versions : List (List ℕ) → Option (ℕ × ℕ)
versions [] = none
versions (part ∷ rest) = elim (component part) [ some n ↦ some (n, minor_of rest) | none ↦ none ]

unfoldable pub opus_version : String → Option (ℕ × ℕ)
opus_version id = elim (strip_prefix (chars "claude-opus-") (chars id)) [
  | some version ↦ versions (split (λ c. c == b'-') version)
  | none ↦ none
]

-- `version > current` on pairs.
abbrev pub is_newer : ℕ × ℕ → ℕ × ℕ → Bool
is_newer (a, b) (c, d) = ltb c a || a == c && ltb d b

abbrev pub is_better : Option (String × (ℕ × ℕ)) → ℕ × ℕ → Bool
is_better none version = true
is_better (some (id, current)) version = is_newer version current

abbrev pub choose : Option (String × (ℕ × ℕ)) → String → Option (ℕ × ℕ) → Option (String × (ℕ × ℕ))
choose preferred id none = preferred
choose preferred id (some version) =
    if is_better preferred version then some (id, version) else preferred

-- The loop of `selected_model` that looks for the newest version.
unfoldable pub prefer : Option (String × (ℕ × ℕ)) → List String → Option (String × (ℕ × ℕ))
prefer preferred [] = preferred
prefer preferred (id ∷ ids) = prefer (choose preferred id (opus_version id)) ids

abbrev pub first_model : List String → AppResult String
first_model [] = err models_empty
first_model (id ∷ ids) = ok id

unfoldable pub selected_model : String → List String → AppResult String
unfolding prefer
selected_model configured models =
    if not (configured == "")
    then if contains models configured then ok configured else err model_unavailable
    else elim (prefer none models) [ some (id, version) ↦ ok id | none ↦ first_model models ]

abbrev keep_head : Char → Option (String × String) → Option (String × String)
keep_head c none = none
keep_head c (some (a, b)) = some (String.◌∷◌ c a, b)

-- `s.split_once(':')`.
unfoldable pub split_colon : String → Option (String × String)
split_colon String.[] = none
split_colon (String.◌∷◌ c s) =
    let later = keep_head c (split_colon s) in if code c == b':' then some ("", s) else later

-- References to saved keys; `digest` is the SHA-256 of a text, in hexadecimal.
unfoldable pub credential_reference : (String → String) → String → String → String
credential_reference digest endpoint fresh = append (digest endpoint) (String.◌∷◌ ":" fresh)

unfoldable pub credential_matches : Host → (String → String) → String → String → Bool
unfolding split_colon Validation.id
credential_matches crates digest endpoint reference = elim (split_colon reference) [
  | some (prefix, id) ↦ prefix == digest endpoint && is_ok (Validation.id crates id)
  | none ↦ false
]
