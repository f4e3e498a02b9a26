-- ===== src/Core/Configured.antt =====
-- What `Core::configure` of src-tauri/src/core.rs leaves behind.
use desktop_ai_dashboard.Prelude.Texts.{trim}
use desktop_ai_dashboard.Prelude.{
  ok, ℕ, ◌==◌, ◌&&◌, not, Bool, is_some, if◌then◌else◌, Option-cases, AppError, err, false, ◌+◌,
  String, Option, none, some, ◌≡◌, ◌⊎◌, inl, inr, nat_eq, string_eq, arith, AppResult-cases,
}
use desktop_ai_dashboard.Host.{Host}
use desktop_ai_dashboard.Store.Tables.{StoredProvider}
use desktop_ai_dashboard.Store.Chats.{invalidate_provider}
use desktop_ai_dashboard.Runtime.Storage.{runtime_save_config}
use desktop_ai_dashboard.Provider.{credential_reference}
use desktop_ai_dashboard.Core.{Core, Credentials}
use desktop_ai_dashboard.Core.Managed.{provider_changed}
use desktop_ai_dashboard.Core.Configuration.{
  ProviderInput, save_key, store_provider, remove_old, cancel_work, follow_up, commit, configure,
  admit, next_generation, updated,
}

-- All but the keys is as it was.
abbrev pub KeepsWork : {S : Type 0} → Core S → Core S → Type 0
KeepsWork c d =
    (d.tables ≡ c.tables)
    × (d.runtime_requests ≡ c.runtime_requests)
    × (d.synced_model_generation ≡ c.synced_model_generation)
    × (d.check ≡ c.check)
    × (d.discovery ≡ c.discovery)
    × (d.cancelled ≡ c.cancelled)

-- The reference of a key that was given.
abbrev pub referred : Option String → String → Option String
referred none reference = none
referred (some secret) reference = some reference

-- The credential of the new provider.
abbrev pub credential_after : Option String → Bool → Bool → String → Option String → Option String
credential_after (some secret) same clear reference old = some reference
credential_after none same clear reference old = if same && not clear then old else none

abbrev pub IsStored :
    (String → String) → ProviderInput → String → String → StoredProvider → StoredProvider → Type 0
IsStored digest input base fresh old new =
    (new.generation ≡ old.generation + 1)
    × (new.config.label ≡ trim input.label)
    × (new.config.base_url ≡ base)
    × (new.config.model ≡ input.model)
    × (new.config.verified ≡ false)
    × (new.config.last_checked_at ≡ none)
    × (new.config.has_key ≡ is_some new.credential)
    × (new.credential
        ≡ credential_after input.api_key (base == old.config.base_url) input.clear_key
            (credential_reference digest base fresh) old.credential)

module _ {S : Type 0} (crates : Host) (digest : String → String) (credentials : Credentials S) where
  pub save_key-KeepsWork :
      (reference : String) (secret : Option String) (c : Core S)
      → KeepsWork c (save_key crates digest credentials reference secret c).1
  unfolding save_key
  save_key-KeepsWork reference none c = ground arith
  save_key-KeepsWork reference (some secret) c = ground arith

  pub remove_old-KeepsWork :
      (old fresh : Option String) (c : Core S)
      → KeepsWork c (remove_old crates digest credentials old fresh c).1
  unfolding remove_old
  remove_old-KeepsWork none fresh c = ground arith
  remove_old-KeepsWork (some reference) fresh c = ground arith

  pub follow_up-provider :
      (old credential : Option String) (epoch : String) (c : Core S)
      → (follow_up crates digest credentials old credential epoch c).1.tables.provider
        ≡ c.tables.provider
  unfolding follow_up provider_changed runtime_save_config
  follow_up-provider old credential epoch c =
      ground (arith, remove_old-KeepsWork old credential (cancel_work (provider_changed epoch c).1))

  save_key-saved :
      (reference : String) (secret saved : Option String) (c : Core S)
      → (save_key crates digest credentials reference secret c).0 ≡ ok saved
      → saved ≡ referred secret reference
  unfolding save_key
  save_key-saved reference none saved c h = ground arith
  save_key-saved reference (some secret) saved c h = ground arith

  commit-atomic :
      (input : ProviderInput) (base fresh epoch : String) (c d : Core S)
      → d.tables ≡ c.tables
      → let saved = referred input.api_key (credential_reference digest base fresh) in
        let done = commit crates digest credentials input base c.tables.provider saved epoch d in
        ((e : AppError) × (done.0 ≡ err e) × KeepsWork d done.1)
        ⊎ IsStored digest input base fresh c.tables.provider done.1.tables.provider
  unfolding commit store_provider invalidate_provider
  commit-atomic input base fresh epoch c d same =
      let old = c.tables.provider in
      let saved = referred input.api_key (credential_reference digest base fresh) in
      elim (AppResult-cases (next_generation old.generation)) [
        | inr (e, p) ↦ inl (e, ground arith, ground arith)
        | inl (g, p) ↦
            let new = updated input base old saved g in
            let whole =
              follow_up-provider old.credential new.credential epoch
                (record d { tables = (invalidate_provider new d.tables).0 }) in
            let done = commit crates digest credentials input base old saved epoch d in
            inr (
              stored-IsStored input base fresh g old done.1.tables.provider p
                (ground (arith, whole)))
      ]
    where
      stored-IsStored :
          (input : ProviderInput) (base fresh : String) (g : ℕ) (old new : StoredProvider)
          → next_generation old.generation ≡ ok g
          → new
            ≡ updated input base old
                (referred input.api_key (credential_reference digest base fresh))
                g
          → IsStored digest input base fresh old new
      stored-IsStored input base fresh g old new p whole = elim (Option-cases input.api_key) [
        | inl none_ ↦ ground arith
        | inr (secret, some_) ↦ ground arith
      ]

  -- A configuration either fails and changes nothing but the keys, or it has stored, under the next
  -- generation, the label, endpoint and model of its input, which it has admitted, as an unverified
  -- provider. The credential of that provider is the new one if a key was given; else the old one
  -- where the endpoint is the same and the key is not to be cleared, and else none.
  pub configure-atomic :
      (input : ProviderInput) (fresh epoch : String) (c : Core S)
      → let done = configure crates digest credentials input fresh epoch c in
        ((e : AppError) × (done.0 ≡ err e) × KeepsWork c done.1)
        ⊎ ((base : String) × (admit crates input ≡ ok base)
            × IsStored digest input base fresh c.tables.provider done.1.tables.provider)
  unfolding configure
  configure-atomic input fresh epoch c = elim (AppResult-cases (admit crates input)) [
    | inr (e, p) ↦ inl (e, ground arith, ground arith)
    | inl (base, p) ↦
        let reference = credential_reference digest base fresh in
        let saved = save_key crates digest credentials reference input.api_key c in
        let kept = save_key-KeepsWork reference input.api_key c in
        elim (AppResult-cases saved.0) [
          | inr (e, q) ↦ inl (e, ground arith, ground arith)
          | inl (credential, q) ↦
              let named = save_key-saved reference input.api_key credential c q in
              elim (commit-atomic input base fresh epoch c saved.1 kept.0) [
                | inl (e, failed, keeps) ↦ inl (e, ground arith, ground arith)
                | inr stored ↦ inr (base, p, ground arith)
              ]
        ]
  ]
