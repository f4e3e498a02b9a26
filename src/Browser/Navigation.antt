-- ===== src/Browser/Navigation.antt =====
-- Where the owned browser of src-tauri/src/browser.rs may navigate: `validate_url`,
-- `validate_url_with_callback` and `permits`.
use desktop_ai_dashboard.Prelude.{
  ℕ, String, Bool, true, false, not, ◌&&◌, some, List, [], ◌∷◌, ◌++◌, ◌≡◌, ◌⊎◌, inl, inr, refl,
  ◌==◌, nat_eq, string_eq, is_some, arith, eq_iff, Bool-cases, ok, AppResult-cases, Option-cases,
  is_some_and, >>=-eq-ok, >>-eq-ok, reject_if-eq-ok, ok_or-eq-ok, reject_if, ok_or,
}
use desktop_ai_dashboard.Prelude.Scans.{has_infix, strip_prefix}
use desktop_ai_dashboard.Host.{Host, Url}
use desktop_ai_dashboard.Browser.Addresses.{
  validate_url, validate_url_with_callback, denied_host, is_loopback_host, is_refused, is_malformed,
  has_userinfo, invalid_url,
}
use desktop_ai_dashboard.Browser.Session.{Session, BrowserConfig, permits, checked_url}

strip_prefix-append : (p s : List ℕ) → strip_prefix p (p ++ s) ≡ some s
unfolding strip_prefix
strip_prefix-append [] s = refl
strip_prefix-append (c ∷ p) s = ground (arith, strip_prefix-append p s)

pub has_infix-append : (p a b : List ℕ) → has_infix p (a ++ (p ++ b)) ≡ true
unfolding has_infix
has_infix-append [] [] [] = ground (arith, strip_prefix-append [] [])
has_infix-append [] [] (c ∷ b) = ground (arith, strip_prefix-append [] (c ∷ b))
has_infix-append (d ∷ p) [] b = ground (arith, strip_prefix-append (d ∷ p) b)
has_infix-append p (c ∷ a) b = ground (arith, has_infix-append p a b)

-- What may be said of a URL that passes the checks: it has no credentials, its host is not
-- denied, and it is HTTPS, or HTTP to a loopback host. The flag tells of a loopback host.
abbrev pub IsClean : Url → Bool → Type 0
IsClean url loopback =
    (url.username ≡ "")
    × (is_some url.password ≡ false)
    × (host : String) × (url.host ≡ some host)
    × (denied_host host ≡ false)
    × (is_loopback_host host ≡ loopback)
    × ((url.scheme ≡ "https") ⊎ ((url.scheme ≡ "http") × (loopback ≡ true)))

-- A clean URL whose host is a loopback host is allowed in the tests' mode, or when it is HTTP to
-- 127.0.0.1 for a callback that the connectors wait for.
abbrev pub IsAllowed : BrowserConfig → Url → Type 0
IsAllowed config url =
    (loopback : Bool) × IsClean url loopback
    × ((loopback ≡ false)
        ⊎ (config.allow_loopback ≡ true)
        ⊎ ((url.scheme ≡ "http") × (url.host ≡ some "127.0.0.1") × (config.pending url ≡ true)))

refused-IsClean :
    (url : Url) (host : String) (allow : Bool)
    → url.host ≡ some host
    → is_refused url host allow ≡ false
    → IsClean url (is_loopback_host host) × ((is_loopback_host host ≡ false) ⊎ (allow ≡ true))
unfolding is_refused
refused-IsClean url host allow e h = (
  (ground (arith, eq_iff url.username ""), (ground arith), host, e, (ground arith), refl, scheme),
  ground arith,
)
  where
    scheme : (url.scheme ≡ "https") ⊎ ((url.scheme ≡ "http") × (is_loopback_host host ≡ true))
    scheme = ground (arith, eq_iff url.scheme "https", eq_iff url.scheme "http")

module _ (crates : Host) where
  validate_url-IsClean :
      (raw : String) (allow : Bool) (url : Url)
      → validate_url crates raw allow ≡ ok url
      → (loopback : Bool) × IsClean url loopback
        × ((loopback ≡ false) ⊎ (allow ≡ true))
        × (crates.parse_url raw ≡ some url)
  unfolding validate_url
  validate_url-IsClean raw allow url h =
      let (a, r) = >>-eq-ok (reject_if (is_malformed raw) invalid_url) _ h in
      let (u, p, r) = >>=-eq-ok (ok_or (crates.parse_url raw) invalid_url) _ r in
      let (host, q, r) = >>=-eq-ok (ok_or u.host invalid_url) _ r in
      let (c, r) = >>-eq-ok (reject_if (is_refused u host allow) invalid_url) _ r in
      let (d, r) = >>-eq-ok (reject_if (has_userinfo raw) invalid_url) _ r in
      let same : u ≡ url = cc in
      let parsed = ok_or-eq-ok (crates.parse_url raw) invalid_url p in
      let at = ok_or-eq-ok u.host invalid_url q in
      let kept = reject_if-eq-ok (is_refused u host allow) invalid_url c in
      let (clean, allowed) = refused-IsClean u host allow at kept in
      (is_loopback_host host, rw same at clean, allowed, rw same at parsed)

  is_callback :
      (config : BrowserConfig) (url : Url)
      → not (
          url.scheme == "http"
          && is_some_and url.host (λ n. n == "127.0.0.1")
          && config.pending url)
        ≡ false
      → (url.scheme ≡ "http") × (url.host ≡ some "127.0.0.1") × (config.pending url ≡ true)
  is_callback config url h = elim (Option-cases url.host) [
    | inl e ↦ ground arith
    | inr (n, e) ↦ ground (arith, eq_iff url.scheme "http", eq_iff n "127.0.0.1")
  ]

  callback-IsAllowed :
      (config : BrowserConfig) (raw : String) (url : Url)
      → validate_url_with_callback crates raw config.allow_loopback config.pending ≡ ok url
      → (crates.parse_url raw ≡ some url) × IsAllowed config url
  unfolding validate_url_with_callback
  callback-IsAllowed config raw url h =
      elim (AppResult-cases (validate_url crates raw config.allow_loopback)) [
        | inl (u, e) ↦
            let same : u ≡ url = ground arith in
            let (l, clean, allowed, parsed) =
              validate_url-IsClean raw config.allow_loopback url (rw same at e) in
            (parsed, (l, clean, ground arith))
        | inr (x, e) ↦
            let (u, a, r) =
              >>=-eq-ok (validate_url crates raw true) _
                (rw (e, validate_url_with_callback) at h) in
            let (t, b) =
              >>-eq-ok
                (reject_if
                  (not (
                    u.scheme == "http"
                    && is_some_and u.host (λ n. n == "127.0.0.1")
                    && config.pending u))
                  invalid_url)
                _ r in
            let same : u ≡ url = cc in
            let (l, clean, allowed, parsed) = validate_url-IsClean raw true url (rw same at a) in
            let waits = reject_if-eq-ok _ invalid_url (rw same at t) in
            (parsed, (l, clean, inr (inr (is_callback config url waits))))
      ]

  -- A URL that the browser's navigation test lets through, at the address `about:blank` or not,
  -- belongs to the present generation. If it is not `about:blank` the session is secured, and what
  -- its text parses as is clean; if the host is a loopback host then loopback is allowed, or it is
  -- HTTP to 127.0.0.1 for a callback that the connectors have pending.
  pub permits-IsClean :
      (config : BrowserConfig) (g : ℕ) (url : Url) (s : Session)
      → permits crates config g url s ≡ true
      → (s.generation ≡ g)
        × ((url.text ≡ "about:blank")
            ⊎ ((s.secured ≡ true)
                × (target : Url) × (crates.parse_url url.text ≡ some target)
                × IsAllowed config target))
  unfolding permits checked_url
  permits-IsClean config g url s h = elim (Bool-cases (url.text == "about:blank")) [
    | inl blank ↦ (ground arith, inl ((eq_iff url.text "about:blank").0 blank))
    | inr page ↦
        elim (AppResult-cases
          (validate_url_with_callback crates url.text config.allow_loopback config.pending)) [
            | inl (target, e) ↦
                let (parsed, allowed) = callback-IsAllowed config url.text target e in
                (ground arith, inr (ground arith, target, parsed, allowed))
            | inr (x, e) ↦ ground arith
          ]
  ]
