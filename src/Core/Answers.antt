-- ===== src/Core/Answers.antt =====
-- Answers to the requests of src-tauri/src/core.rs that come in time, or too late.
use desktop_ai_dashboard.Prelude.{
  nat_eq, ℕ, ◌≤◌, String, false, Option, List, ◌≡◌, inl, inr, nat_eq, string_eq, arith, AppResult,
  ok, err, AppResult-cases, stale,
}
use desktop_ai_dashboard.Host.{Host}
use desktop_ai_dashboard.Store.Tables.{ProviderConfig, StoredProvider}
use desktop_ai_dashboard.Store.Chats.{set_provider}
use desktop_ai_dashboard.Core.{Core, Credentials, key}
use desktop_ai_dashboard.Core.Configuration.{ProviderInput, configure}
use desktop_ai_dashboard.Core.Resets.{configure-IsConfigured}
use desktop_ai_dashboard.Core.Checks.{Discovery, begin_discovery, finish_discovery, begin_check}

module _ {S : Type 0} (crates : Host) (digest : String → String) (credentials : Credentials S) where
  begin_discovery-generation :
      (c : Core S) (d : Discovery)
      → (begin_discovery crates digest credentials c).0 ≡ ok d
      → (d.generation ≡ c.tables.provider.generation)
        × ((begin_discovery crates digest credentials c).1.tables ≡ c.tables)
  unfolding begin_discovery
  begin_discovery-generation c d h =
      elim (AppResult-cases (key crates digest credentials c.tables.provider c)) [
        | inr (e, p) ↦ ground arith
        | inl (k, p) ↦ ground arith
      ]

  -- A list of models that was requested before the provider was configured anew is refused, and
  -- changes nothing, in any later state that has not gone back to an earlier generation.
  pub configure-finish_discovery :
      (c later : Core S) (d : Discovery) (input : ProviderInput) (fresh epoch : String)
      (config : ProviderConfig) (result : AppResult (List String))
      → (begin_discovery crates digest credentials c).0 ≡ ok d
      → let begun = (begin_discovery crates digest credentials c).1 in
        (configure crates digest credentials input fresh epoch begun).0 ≡ ok config
        → (configure crates digest credentials input fresh epoch begun).1.tables.provider.generation
          ≤ later.tables.provider.generation
        → finish_discovery d result later ≡ (err stale, later)
  unfolding finish_discovery
  configure-finish_discovery c later d input fresh epoch config result h g le = ground (
    arith,
    begin_discovery-generation c d,
    configure-IsConfigured crates digest credentials input fresh epoch config
        (begin_discovery crates digest credentials c).1 0,
  )

  begin_check-snapshot :
      (selection : Option (String × ℕ)) (c : Core S) (p : StoredProvider) (secret : Option String)
      (token : ℕ)
      → (begin_check crates digest credentials selection c).0 ≡ ok (p, (secret, token))
      → (p.generation ≡ c.tables.provider.generation)
        × ((begin_check crates digest credentials selection c).1.tables.provider ≡ p)
        × (p.config.verified ≡ false)
  unfolding begin_check set_provider
  begin_check-snapshot selection c p secret token h =
      elim (AppResult-cases (key crates digest credentials c.tables.provider c)) [
        | inr (e, q) ↦ ground arith
        | inl (k, q) ↦ ground arith
      ]
