-- ===== src/Provider/References.antt =====
-- References to saved keys: `credential_reference` and `credential_matches` of
-- src-tauri/src/provider.rs.
use Prim.Native.String.{◌++◌ as append}
use text.Mathlib.TextLemmas.{nil-append, cons-append}
use desktop_ai_dashboard.Prelude.{
  String, true, not, some, ◌≡◌, ◌↔◌, ◌==◌, nat_eq, string_eq, arith, eq_iff, ok,
}
use desktop_ai_dashboard.Prelude.Texts.{all_chars}
use desktop_ai_dashboard.Host.{Host}
use desktop_ai_dashboard.Validation
use desktop_ai_dashboard.Provider.{split_colon, credential_reference, credential_matches}

-- A text without a colon is split off at the colon that follows it.
split_colon-append :
    (a b : String)
    → all_chars (λ c. not (c == b':')) a ≡ true
    → split_colon (append a (String.◌∷◌ ":" b)) ≡ some (a, b)
unfolding split_colon
split_colon-append String.[] b h = ground (arith, nil-append (String.◌∷◌ ":" b))
split_colon-append (String.◌∷◌ c a) b h =
    ground (arith, cons-append c a (String.◌∷◌ ":" b), split_colon-append a b)

-- A reference to a key of one endpoint, under a valid identifier, is taken for one of another
-- endpoint exactly when the digests of the two are the same; so it is always taken for its own.
pub credential_matches_iff :
    (crates : Host) (digest : String → String) (endpoint other fresh : String)
    → all_chars (λ c. not (c == b':')) (digest endpoint) ≡ true
    → Validation.id crates fresh ≡ ok tt
    → (credential_matches crates digest other (credential_reference digest endpoint fresh) ≡ true)
      ↔ (digest endpoint ≡ digest other)
unfolding credential_matches credential_reference
credential_matches_iff crates digest endpoint other fresh h v =
    ground
      (arith, split_colon-append (digest endpoint) fresh, eq_iff (digest endpoint) (digest other))
