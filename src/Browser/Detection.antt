-- ===== src/Browser/Detection.antt =====
-- The detection of installations in src-tauri/src/browser/chromium.rs.
use desktop_ai_dashboard.Prelude.{
  ℕ, suc, String, Bool, true, ◌&&◌, Option, none, some, List, [], ◌∷◌, ◌≡◌, ◌↔◌, ◌≤◌, nat_eq,
  string_eq, arith, any, if◌then◌else◌,
}
use desktop_ai_dashboard.Browser.Chromium.{
  ChromiumKind, chrome, chrome_canary, chromium, same_kind, ChromiumInstall, detect_unseen,
  detect_from,
}

-- The first install of a kind.
abbrev first_of : ChromiumKind → List ChromiumInstall → Option ChromiumInstall
first_of k [] = none
first_of k (c ∷ cs) = if same_kind k c.kind then some c else first_of k cs

abbrev count_of : ChromiumKind → List ChromiumInstall → ℕ
count_of k [] = 0
count_of k (c ∷ cs) = if same_kind k c.kind then suc (count_of k cs) else count_of k cs

abbrev first_existing :
    ChromiumKind → (String → Bool) → List ChromiumInstall → Option ChromiumInstall
first_existing k exists [] = none
first_existing k exists (c ∷ cs) =
    if same_kind k c.kind && exists c.path then some c else first_existing k exists cs

same_kind_iff : (a b : ChromiumKind) → (same_kind a b ≡ true) ↔ (a ≡ b)
same_kind_iff chrome chrome = ground arith
same_kind_iff chrome _ = ground arith
same_kind_iff chrome_canary chrome_canary = ground arith
same_kind_iff chrome_canary _ = ground arith
same_kind_iff chromium chromium = ground arith
same_kind_iff chromium _ = ground arith

detect_unseen-first :
    (exists : String → Bool) (k : ChromiumKind) (seen : List ChromiumKind)
    (cs : List ChromiumInstall)
    → (first_of k (detect_unseen exists seen cs)
        ≡ (if any (same_kind k) seen then none else first_existing k exists cs))
      × (count_of k (detect_unseen exists seen cs) ≤ (if any (same_kind k) seen then 0 else 1))
unfolding detect_unseen
detect_unseen-first exists k seen [] = ground arith
detect_unseen-first exists k seen (c ∷ cs) = ground (
  arith,
  same_kind_iff k c.kind,
  detect_unseen-first exists k seen cs,
  detect_unseen-first exists k (c.kind ∷ seen) cs,
)

-- For each kind, the install that the detection reports is the first candidate of that kind that
-- exists, and it reports at most one.
pub detect_from-first :
    (exists : String → Bool) (k : ChromiumKind) (cs : List ChromiumInstall)
    → (first_of k (detect_from cs exists) ≡ first_existing k exists cs)
      × (count_of k (detect_from cs exists) ≤ 1)
unfolding detect_from
detect_from-first exists k cs = detect_unseen-first exists k [] cs
