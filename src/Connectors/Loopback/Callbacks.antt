-- ===== src/Connectors/Loopback/Callbacks.antt =====
-- Which URLs `matches_callback_url` of src-tauri/src/connectors/loopback.rs accepts.
use Prim.Native.String.{len}
use desktop_ai_dashboard.Prelude.{
  ℕ, String, Bool, true, Option, none, some, List, [], ◌∷◌, ◌≡◌, ◌≤◌, ◌↔◌, refl, ◌==◌, nat_eq,
  string_eq, retain, is_some_and, arith, eq_iff,
}
use desktop_ai_dashboard.Prelude.Texts.{bytes}
use desktop_ai_dashboard.Host.{Url}
use desktop_ai_dashboard.Connectors.Loopback.{
  max_request_bytes, valid_encoding, one_state, query_or_empty, matches_callback_url,
}
use desktop_ai_dashboard.Connectors.Loopback.Comparison.{constant_time_eq_iff}

abbrev pub states : Url → List (String × String)
states url = retain (λ e. e.0 == "state") url.query_pairs

is_some_and_iff {ℓ} :
    {A : Type ℓ} (o : Option A) (p : A → Bool) (a : A)
    → ((x : A) → (p x ≡ true) ↔ (x ≡ a))
    → (is_some_and o p ≡ true) ↔ (o ≡ some a)
is_some_and_iff none p a h = (λ e. cc, λ e. cc)
is_some_and_iff (some x) p a h = (λ e. cc ((h x).0 e), λ e. (h x).1 (cc e))

one_state_iff :
    (pairs : List (String × String)) (state : String)
    → (one_state pairs state ≡ true)
      ↔ ((k : String) × (v : String) × (pairs ≡ (k, v) ∷ []) × (bytes v ≡ bytes state))
one_state_iff [] state = (λ h. cc, λ (k, v, e, same). cc)
one_state_iff (e ∷ []) state = (
  λ h. (e.0, e.1, refl, (constant_time_eq_iff (bytes e.1) (bytes state)).0 h),
  λ (k, v, pair, same).
      (constant_time_eq_iff (bytes e.1) (bytes state)).1
        (let value : e.1 ≡ v = cc in rw value same),
)
one_state_iff (e ∷ f ∷ es) state =
    (λ h. absurd (ground arith), λ (k, v, e, same). absurd (ground arith))

-- A URL is accepted exactly when it is plain HTTP to the loopback address, at the port and the path
-- of the attempt, with no user, password or fragment, within the size limit, with a well-formed
-- query, and carries exactly one `state`, whose bytes are those of the state of the attempt.
pub matches_callback_url_iff :
    (url : Url) (port : ℕ) (path state : String)
    → (matches_callback_url url port path state ≡ true) ↔ (
        (url.scheme ≡ "http")
        × (url.host ≡ some "127.0.0.1")
        × (url.port ≡ some port)
        × (url.username ≡ "")
        × (url.password ≡ none)
        × (url.fragment ≡ none)
        × (url.path ≡ path)
        × (len url.text ≤ max_request_bytes)
        × (valid_encoding (bytes (query_or_empty url.query)) ≡ true)
        × ((k : String) × (v : String) × (states url ≡ (k, v) ∷ []) × (bytes v ≡ bytes state)))
unfolding matches_callback_url
matches_callback_url_iff url port path state =
    let host_iff =
      is_some_and_iff url.host (λ h. h == "127.0.0.1") "127.0.0.1" (λ h. eq_iff h "127.0.0.1") in
    let port_iff = is_some_and_iff url.port (λ p. p == port) port (λ p. nat_eq.equal_iff p port) in
    let state_iff = one_state_iff (states url) state in
    (
      λ h. (
        ground (arith, eq_iff url.scheme "http"),
        host_iff.0 (ground arith),
        port_iff.0 (ground arith),
        ground (arith, eq_iff url.username ""),
        ground arith,
        ground arith,
        ground (arith, eq_iff url.path path),
        ground arith,
        ground arith,
        state_iff.0 (ground arith),
      ),
      λ (scheme, host, at, user, password, fragment, same, small, fine, one).
          let one_ok = state_iff.1 one in
          let host_ok = host_iff.1 host in
          let port_ok = port_iff.1 at in
          ground (arith, eq_iff url.scheme "http", eq_iff url.username "", eq_iff url.path path),
    )
