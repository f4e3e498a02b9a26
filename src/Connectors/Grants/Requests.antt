-- ===== src/Connectors/Grants/Requests.antt =====
-- Checks on one grant request: src-tauri/src/connectors/grants.rs, `timestamp`, `identity`,
-- `origin` and `GrantRequest::validate`, and `validate_id` of connectors.rs.
use Prim.Native.String.{len}
use desktop_ai_dashboard.Prelude.{
  ℕ, ℤ, String, Bool, false, not, ◌||◌, ◌&&◌, List, [], ◌∷◌, ◌++◌, map, ◌==◌, string_eq, nat_eq,
  ltb, leb_ℤ, ltb_ℤ, later, any, contains, length, is_some, AppResult, err, ◌>>=◌, ◌>>◌, reject_if,
  ok_or, invalid, if◌then◌else◌, is_some_and,
}
use desktop_ai_dashboard.Prelude.Texts.{all_chars, is_alphanumeric}
use desktop_ai_dashboard.Host.{Host, Url}
use desktop_ai_dashboard.Connectors.Grants.Types.{
  ReadOperation, operation_eq, category, GrantRequest, denied, max_grant_ms,
}

abbrev pub is_identity_char : ℕ → Bool
is_identity_char c = is_alphanumeric c || c == b'-' || c == b'_' || c == b'.'

unfoldable pub identity : String → AppResult (Unit {0})
identity value =
    reject_if (value == "" || ltb 128 (len value) || not (all_chars is_identity_char value)) invalid

-- Plain HTTP is for the two names of the private runtime host.
abbrev pub private_http : Url → Bool
private_http url =
    url.scheme == "http"
    && is_some_and url.host (λ h. h == "miniforum1.tail5788db.ts.net" || h == "100.90.255.43")

-- `operations.iter().enumerate().any(|(i, op)| operations[..i].contains(op))`, where `before` is
-- `operations[..i]`.
unfoldable pub repeats_after : List ReadOperation → List ReadOperation → Bool
repeats_after before [] = false
repeats_after before (op ∷ ops) = contains before op || repeats_after (before ++ op ∷ []) ops

module _ (host : Host) where
  unfoldable pub validate_id : String → AppResult (Unit {0})
  validate_id id = do
    parsed ← ok_or (host.parse_uuid id) invalid
    reject_if (parsed.is_nil || not (parsed.canonical == id)) invalid

  unfoldable pub timestamp : String → AppResult ℤ
  timestamp value =
      if ltb 40 (len value) then err invalid else ok_or (host.parse_rfc3339 value) invalid

  unfoldable pub origin : String → AppResult (Unit {0})
  origin value = do
    url ← ok_or (host.parse_url value) invalid
    reject_if
        (ltb 256 (len value)
          || not (url.scheme == "https" || private_http url)
          || not (url.username == "")
          || is_some url.password
          || is_some url.query
          || is_some url.fragment
          || not (url.path == "/")
          || not (is_some url.host)
          || not (url.origin == value))
        invalid

  unfoldable pub validate : GrantRequest → ℤ → AppResult (Unit {0})
  validate request now = do
    identity request.workspace_id
    identity request.device_id
    validate_id request.connection_id
    expires ← timestamp request.expires_at
    reject_if
        (not request.account_read_consented
          || not request.egress.consented
          || not (request.egress.retention == "ephemeral-run")
          || leb_ℤ expires now
          || ltb_ℤ (later now max_grant_ms) expires
          || length request.operations == 0
          || ltb 2 (length request.operations))
        denied
    origin request.egress.runtime_origin
    origin request.egress.model_origin
    let categories = map category request.operations
    reject_if
        (not (length categories == length request.egress.data_categories)
          || any (λ c. not (contains request.egress.data_categories c)) categories
          || repeats_after [] request.operations)
        denied
