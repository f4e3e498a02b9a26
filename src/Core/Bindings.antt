-- ===== src/Core/Bindings.antt =====
-- The identity that the managed runtime is bound to: `accept_snapshot` of
-- src-tauri/src/runtime/managed.rs.
use desktop_ai_dashboard.Prelude.{
  ℕ, String, true, false, not, Option, none, some, List, ◌≡◌, ◌⊎◌, inl, inr, refl, ◌==◌, nat_eq,
  string_eq, arith, eq_iff, AppError, ok, err, done-cases, Option-cases, is_some_and, >>-eq-ok,
  reject_if-eq-ok, reject_if, stale,
}
use desktop_ai_dashboard.Host.{Host, Url}
use desktop_ai_dashboard.Runtime.Dto.{Capabilities, RuntimeModel}
use desktop_ai_dashboard.Runtime.Storage.{status_of, runtime_status, runtime_checked}
use desktop_ai_dashboard.Store.Tables.{Tables, StoredProvider}
use desktop_ai_dashboard.Core.{Core}
use desktop_ai_dashboard.Core.Managed.{
  validate_capabilities, admit_snapshot, accept_snapshot, state_of, bound, other_binding,
  check_destination, default_models,
}

-- An identifier that was bound before is the same.
abbrev pub Matches : Option String → String → Type 0
Matches none id = Unit
Matches (some s) id = s ≡ id

abbrev pub SameDevice : Option Capabilities → Capabilities → Type 0
SameDevice none caps = Unit
SameDevice (some old) caps = (old.device_id ≡ caps.device_id) × (old.library_id ≡ caps.library_id)

-- The model destination that was approved is the one that the runtime acknowledges.
abbrev pub Acknowledged : Host → Option ℕ → Capabilities → StoredProvider → Type 0
Acknowledged crates none caps p = Unit
Acknowledged crates (some g) caps p =
    (p.generation ≡ g)
    × (url : Url) × (crates.parse_url p.config.base_url ≡ some url)
    × (caps.model_origin ≡ url.origin)

bound-Matches : (saved : Option String) (id : String) → bound saved id ≡ false → Matches saved id
bound-Matches none id h = tt
bound-Matches (some s) id h = ground (arith, eq_iff s id)

other_binding-SameDevice :
    (old : Option Capabilities) (caps : Capabilities)
    → other_binding old caps ≡ false
    → SameDevice old caps
other_binding-SameDevice none caps h = tt
other_binding-SameDevice (some old) caps h =
    ground (arith, eq_iff old.device_id caps.device_id, eq_iff old.library_id caps.library_id)

module _ (crates : Host) where
  destination :
      (generation : Option ℕ) (t : Tables) (caps : Capabilities)
      → reject_if (is_some_and generation (λ g. not (t.provider.generation == g))) stale ≡ ok tt
      → check_destination crates generation t.provider.config.base_url caps.model_origin ≡ ok tt
      → Acknowledged crates generation caps t.provider
  destination none t caps g a = tt
  destination (some n) t caps g a =
      elim (Option-cases (crates.parse_url t.provider.config.base_url)) [
        | inl e ↦ absurd (ground arith)
        | inr (url, e) ↦ (ground arith, url, e, ground (arith, eq_iff caps.model_origin url.origin))
      ]

  admit_snapshot-ok :
      (caps : Capabilities) (models : List RuntimeModel) (generation : Option ℕ) (t : Tables)
      → admit_snapshot crates caps models generation t ≡ ok tt
      → (validate_capabilities crates caps models ≡ ok tt)
        × Acknowledged crates generation caps t.provider
        × Matches t.runtime_config.bound_library_id caps.library_id
        × Matches t.runtime_config.bound_device_id caps.device_id
        × SameDevice t.capabilities caps
  unfolding admit_snapshot
  admit_snapshot-ok caps models generation t h =
      let (r, e) = >>-eq-ok _ (reject_if (other_binding t.capabilities caps) _) h in
      let (r, d) = >>-eq-ok _ (reject_if _ _) r in
      let (r, a) = >>-eq-ok _ _ r in
      let (v, g) = >>-eq-ok (validate_capabilities crates caps models) _ r in
      let bindings = reject_if-eq-ok _ _ d in
      (
        v,
        destination generation t caps g a,
        bound-Matches t.runtime_config.bound_library_id caps.library_id (ground arith),
        bound-Matches t.runtime_config.bound_device_id caps.device_id (ground arith),
        other_binding-SameDevice t.capabilities caps (reject_if-eq-ok _ _ e),
      )

default_models-provider :
    (generation : Option ℕ) (t : Tables) → (default_models generation t).provider ≡ t.provider
default_models-provider none t = refl
default_models-provider (some g) t = refl

-- A snapshot of the runtime that is refused changes nothing. One that is accepted is answered with
-- the new status and is supported; it has the library and the device that were bound before, if
-- any, and they are bound from then on; and if a model was approved, the provider still has that
-- generation and the runtime has acknowledged the origin of its endpoint.
pub accept_snapshot_cases :
    {S : Type 0} (crates : Host) (caps : Capabilities) (models : List RuntimeModel)
    (generation : Option ℕ) (c : Core S)
    → let done = accept_snapshot crates caps models generation c in
      ((e : AppError) × (done ≡ (err e, c)))
      ⊎ ((done.0 ≡ ok (status_of done.1.tables))
          × (validate_capabilities crates caps models ≡ ok tt)
          × Acknowledged crates generation caps c.tables.provider
          × Matches c.tables.runtime_config.bound_library_id caps.library_id
          × Matches c.tables.runtime_config.bound_device_id caps.device_id
          × SameDevice c.tables.capabilities caps
          × (done.1.tables.capabilities ≡ some caps)
          × (done.1.tables.runtime_config.bound_library_id ≡ some caps.library_id)
          × (done.1.tables.runtime_config.bound_device_id ≡ some caps.device_id)
          × (done.1.tables.runtime_config.config.verified ≡ true)
          × (done.1.tables.runtime_config.state ≡ state_of caps)
          × (done.1.tables.provider ≡ c.tables.provider))
unfolding accept_snapshot runtime_checked runtime_status
accept_snapshot_cases crates caps models generation c =
    elim (done-cases (admit_snapshot crates caps models generation c.tables)) [
      | inr (e, p) ↦ inl (e, ground arith)
      | inl p ↦
          let (v, a, l, d, s) = admit_snapshot-ok crates caps models generation c.tables p in
          inr (
            ground arith,
            v,
            a,
            l,
            d,
            s,
            ground arith,
            ground arith,
            ground arith,
            ground arith,
            ground arith,
            ground (arith, default_models-provider generation c.tables),
          )
    ]
