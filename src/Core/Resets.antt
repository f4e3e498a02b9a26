-- ===== src/Core/Resets.antt =====
-- What a configuration of src-tauri/src/core.rs that succeeds has reset.
use desktop_ai_dashboard.Prelude.{
  ℕ, ◌+◌, ◌≤◌, String, Bool, true, false, not, ◌&&◌, ◌||◌, Option, none, some, List, [], ◌∷◌, ◌++◌,
  map, ◌≡◌, ◌⊎◌, inl, inr, refl, nat_eq, string_eq, arith, ok, AppResult-cases, contains, any,
}
use desktop_ai_dashboard.Host.{Host}
use desktop_ai_dashboard.Validation.{max_version}
use desktop_ai_dashboard.Store.Tables.{
  Tables, MessageRow, RequestRow, ProviderConfig, StoredProvider, is_pending, update, cancelled,
}
use desktop_ai_dashboard.Store.Chats.{invalidate_provider, has_runtime}
use desktop_ai_dashboard.Runtime.Storage.{runtime_save_config}
use desktop_ai_dashboard.Provider.{credential_reference}
use desktop_ai_dashboard.Core.{Core, Credentials, is_cancelled}
use desktop_ai_dashboard.Core.Managed.{provider_changed}
use desktop_ai_dashboard.Core.Configuration.{
  ProviderInput, save_key, store_provider, cancel_work, follow_up, commit, configure, admit,
  next_generation, updated,
}
use desktop_ai_dashboard.Core.Configured
use desktop_ai_dashboard.Core.Configured.{KeepsWork, save_key-KeepsWork, remove_old-KeepsWork}

contains-append :
    (xs ys : List ℕ) (z : ℕ) → contains (xs ++ ys) z ≡ (contains xs z || contains ys z)
contains-append [] ys z = refl
contains-append (x ∷ xs) ys z = ground (arith, contains-append xs ys z)

-- Whether the core holds a token for work that is going on.
abbrev pub holds_token : {S : Type 0} → ℕ → Core S → Bool
holds_token token c =
    contains
      (slot c.check ++ (slot c.discovery ++ map (λ (r : String × ℕ). r.1) c.runtime_requests)) token
  where
    slot : Option ℕ → List ℕ
    slot none = []
    slot (some t) = t ∷ []

-- After both updates no message waits for a reply.
no_pending :
    (rows : List RequestRow) (f g : MessageRow → MessageRow) (ms : List MessageRow)
    → ((m : MessageRow) → (is_pending (f m).status ≡ false) × (is_pending (g m).status ≡ false))
    → any
        (λ m. is_pending m.status)
        (update
          (λ m. is_pending m.status && has_runtime rows m.request_id)
          g
          (update (λ m. is_pending m.status && not (has_runtime rows m.request_id)) f ms))
      ≡ false
no_pending rows f g [] h = refl
no_pending rows f g (m ∷ ms) h = ground (arith, h m, no_pending rows f g ms h)

abbrev IsReset : {S : Type 0} → Core S → Core S → Type 0
IsReset c d =
    (d.check ≡ none)
    × (d.discovery ≡ none)
    × (d.runtime_requests ≡ [])
    × (d.synced_model_generation ≡ none)
    × (d.tables.runtime_config.background_approved ≡ false)
    × (d.tables.runtime_config.model_generation ≡ none)
    × (d.tables.runtime_config.state ≡ "needsModel")
    × (d.tables.runtime_config.config.generation ≡ c.tables.runtime_config.config.generation + 1)

module _ {S : Type 0} (crates : Host) (digest : String → String) (credentials : Credentials S) where
  follow_up-IsReset :
      (old credential : Option String) (epoch : String) (c : Core S)
      → (follow_up crates digest credentials old credential epoch c).0 ≡ ok tt
      → IsReset c (follow_up crates digest credentials old credential epoch c).1
  unfolding follow_up provider_changed runtime_save_config
  follow_up-IsReset old credential epoch c h = ground (
    arith,
    remove_old-KeepsWork crates digest credentials old credential
        (cancel_work (provider_changed epoch c).1),
  )

  follow_up-cancels :
      (old credential : Option String) (epoch : String) (c : Core S) (token : ℕ)
      → holds_token token c ≡ true
      → (follow_up crates digest credentials old credential epoch c).0 ≡ ok tt
      → is_cancelled token (follow_up crates digest credentials old credential epoch c).1 ≡ true
  unfolding follow_up provider_changed
  follow_up-cancels old credential epoch c token t h = ground (
    arith,
    remove_old-KeepsWork crates digest credentials old credential
        (cancel_work (provider_changed epoch c).1),
    contains-append (map (λ (r : String × ℕ). r.1) c.runtime_requests) c.cancelled token,
  )

  follow_up-no_pending :
      (old credential : Option String) (epoch : String) (p : StoredProvider) (c : Core S)
      → let d = record c { tables = (invalidate_provider p c.tables).0 } in
        (follow_up crates digest credentials old credential epoch d).0 ≡ ok tt
        → any
            (λ m. is_pending m.status)
            (follow_up crates digest credentials old credential epoch d).1.tables.messages
          ≡ false
  unfolding follow_up provider_changed invalidate_provider runtime_save_config
  follow_up-no_pending old credential epoch p c h = ground (
    arith,
    remove_old-KeepsWork crates digest credentials old credential (
        cancel_work
          (provider_changed epoch (record c { tables = (invalidate_provider p c.tables).0 })).1),
    no_pending c.tables.runtime_requests
        (λ m. record m {
          status = cancelled;
          content = "Reply cancelled because the AI connection changed.";
        })
        (λ m. record m {
          status = cancelled;
          content = "Hermes reply fenced because the runtime configuration changed.";
        })
        c.tables.messages (λ m. (refl, refl)),
  )

  invalidated :
      (p : StoredProvider) (t : Tables)
      → ((invalidate_provider p t).0.provider ≡ p)
        × ((invalidate_provider p t).0.runtime_config ≡ t.runtime_config)
        × ((invalidate_provider p t).1 ≡ ok tt)
  unfolding invalidate_provider
  invalidated p t = (refl, refl, refl)

  -- What a configuration has done when it succeeds.
  abbrev pub IsConfigured : ProviderConfig → Core S → Core S → Type 0
  IsConfigured config c d =
      (d.tables.provider.config ≡ config)
      × (config.verified ≡ false)
      × (d.tables.provider.generation ≡ c.tables.provider.generation + 1)
      × (d.tables.provider.generation ≤ max_version)
      × IsReset c d
      × (any (λ m. is_pending m.status) d.tables.messages ≡ false)

  commit-IsConfigured :
      (input : ProviderInput) (base : String) (saved : Option String) (epoch : String)
      (config : ProviderConfig) (c : Core S) (token : ℕ)
      → (commit crates digest credentials input base c.tables.provider saved epoch c).0 ≡ ok config
      → let d = (commit crates digest credentials input base c.tables.provider saved epoch c).1 in
        IsConfigured config c d × ((holds_token token c ≡ false) ⊎ (is_cancelled token d ≡ true))
  unfolding commit store_provider
  commit-IsConfigured input base saved epoch config c token h =
      elim (AppResult-cases (next_generation c.tables.provider.generation)) [
        | inr (e, p) ↦ ground arith
        | inl (g, p) ↦
            let old = c.tables.provider in
            let new = updated input base old saved g in
            let d : Core S = record c { tables = (invalidate_provider new c.tables).0 } in
            ground (
              arith,
              Configured.follow_up-provider crates digest credentials old.credential new.credential
                  epoch d,
              follow_up-IsReset old.credential new.credential epoch d,
              follow_up-cancels old.credential new.credential epoch d token,
              follow_up-no_pending old.credential new.credential epoch new c,
              invalidated new c.tables,
            )
      ]

  -- A configuration that succeeds has stored an unverified provider under the next generation, no
  -- reply waits any more, the runtime's configuration has moved on, and nothing goes on that was
  -- going on: every token that the core held for a check, a refresh or a request is cancelled.
  pub configure-IsConfigured :
      (input : ProviderInput) (fresh epoch : String) (config : ProviderConfig) (c : Core S)
      (token : ℕ)
      → (configure crates digest credentials input fresh epoch c).0 ≡ ok config
      → let d = (configure crates digest credentials input fresh epoch c).1 in
        IsConfigured config c d × ((holds_token token c ≡ false) ⊎ (is_cancelled token d ≡ true))
  unfolding configure
  configure-IsConfigured input fresh epoch config c token h =
      elim (AppResult-cases (admit crates input)) [
        | inr (e, p) ↦ ground arith
        | inl (base, p) ↦
            let reference = credential_reference digest base fresh in
            let saved = save_key crates digest credentials reference input.api_key c in
            let kept = save_key-KeepsWork crates digest credentials reference input.api_key c in
            elim (AppResult-cases saved.0) [
              | inr (e, q) ↦ ground arith
              | inl (credential, q) ↦
                  ground
                    (arith, commit-IsConfigured input base credential epoch config saved.1 token)
            ]
      ]
