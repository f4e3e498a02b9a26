-- ===== src/Runtime/Owners.antt =====
-- Remote ownership of a workspace: src-tauri/src/runtime/storage.rs, `runtime_own_workspace`,
-- `runtime_deletion_owner` and `runtime_acknowledge_deletion`.
use desktop_ai_dashboard.Store.Queries.{ChatWorkspace}
use desktop_ai_dashboard.Prelude.{
  ◌≢◌, ◌↔◌, Bool, Bool-cases, AppError, err, Memᴰ, any→Memᴰ, Memᴰ→any, eq_refl, ℕ, String, true,
  false, not, none, some, List, [], ◌∷◌, ◌==◌, ◌≡◌, ◌⊎◌, refl, string_eq, nat_eq, any, retain,
  arith, AppResult-cases, inl, inr, eq_iff, ok,
}
use desktop_ai_dashboard.Host.{Host}
use desktop_ai_dashboard.Runtime.Dto.{Capabilities}
use desktop_ai_dashboard.Runtime.Storage.{
  ownership_unresolved, RemoteOwner, same_owner, runtime_config, runtime_status, require_binding,
  status_of, same_row, owners_of, runtime_owners,
}
use desktop_ai_dashboard.Runtime.Requests.{
  current_owner, runtime_deletion_owner, runtime_acknowledge_deletion,
}
use desktop_ai_dashboard.Store.Tables.{OwnerRow, Tables}
use desktop_ai_dashboard.Store.Queries.{workspace}

List-cases {ℓ} :
    {A : Type ℓ} (xs : List A) → (xs ≡ []) ⊎ ((x : A) × ((ys : List A) × (xs ≡ x ∷ ys)))
List-cases [] = inl refl
List-cases (x ∷ xs) = inr (x, (xs, refl))

clash : {b : Bool} → b ≡ true → b ≡ false → ⊥
clash h k = cc

-- The search among the owners finds those on record.
same_owner_iff :
    (owner : RemoteOwner) (owners : List RemoteOwner)
    → (any (same_owner owner) owners ≡ true) ↔ Memᴰ owner owners
same_owner_iff owner owners = (
  λ h.
      let (found, m, same) = any→Memᴰ (same_owner owner) owners h in
      let equal : owner ≡ found = ground (
        arith,
        eq_iff owner.endpoint found.endpoint,
        eq_iff owner.library_id found.library_id,
        eq_iff owner.device_id found.device_id,
      ) in
      rw equal m,
  λ m.
      Memᴰ→any (same_owner owner) owners owner m
        (ground (arith, eq_refl owner.endpoint, eq_refl owner.library_id, eq_refl owner.device_id)),
)

module _ (host : Host) where
  owners-kept : (id : String) (t : Tables) → (runtime_deletion_owner host id t).0 ≡ t
  unfolding runtime_deletion_owner runtime_owners runtime_status
  owners-kept id t = ground arith

  -- The search for the owner to notify before a deletion changes nothing. It fails if the workspace
  -- does not exist. Otherwise it succeeds without an owner exactly when none is on record. With
  -- owners on record it needs a verified binding; it then yields the owner that this binding is, if
  -- that is on record, and is refused as unresolved if it is not.
  pub runtime_deletion_owner_cases :
      (id : String) (t : Tables)
      → let done = runtime_deletion_owner host id t in
        let owners = owners_of host id t in
        let status = status_of t in
        (done.0 ≡ t)
        × (((e : AppError) × (workspace host id t ≡ err e) × (done.1 ≡ err e))
            ⊎ ((found : ChatWorkspace) × (workspace host id t ≡ ok found)
                × (((owners ≡ []) × (done.1 ≡ ok none))
                    ⊎ ((owners ≢ [])
                        × (((e : AppError) × (require_binding status false ≡ err e)
                              × (done.1 ≡ err e))
                            ⊎ ((caps : Capabilities) × (require_binding status false ≡ ok caps)
                                × ((Memᴰ (current_owner status caps) owners
                                      × (done.1 ≡ ok (some (current_owner status caps))))
                                    ⊎ ((¬ Memᴰ (current_owner status caps) owners)
                                        × (done.1 ≡ err ownership_unresolved)))))))))
  unfolding runtime_deletion_owner runtime_owners runtime_status
  runtime_deletion_owner_cases id t = elim (AppResult-cases (workspace host id t)) [
    | inr (e, gone) ↦ (owners-kept id t, inl (e, gone, ground arith))
    | inl (c, there) ↦ elim (List-cases (owners_of host id t)) [
      | inl none_ ↦ (owners-kept id t, inr (c, there, inl (none_, ground arith)))
      | inr (first, (others, some_)) ↦
          let any_ : owners_of host id t ≢ [] = λ h. cc in
          elim (AppResult-cases (require_binding (status_of t) false)) [
            | inr (e, unbound) ↦
                (owners-kept id t, inr (c, there, inr (any_, inl (e, unbound, ground arith))))
            | inl (caps, bound) ↦
                let own = current_owner (status_of t) caps in
                let listed = same_owner_iff own (owners_of host id t) in
                elim (Bool-cases (any (same_owner own) (owners_of host id t))) [
                  | inl there_ ↦ (
                    owners-kept id t,
                    inr (
                      c,
                      there,
                      inr (any_, inr (caps, bound, inl (listed.0 there_, ground arith))),
                    ),
                  )
                  | inr missing_ ↦ (
                    owners-kept id t,
                    inr (
                      c,
                      there,
                      inr (
                        any_,
                        inr (
                          caps,
                          bound,
                          inr (λ m. absurd (clash (listed.1 m) missing_), ground arith),
                        ),
                      ),
                    ),
                  )
                ]
          ]
    ]
  ]

  abbrev removed : String → RemoteOwner → Tables → List OwnerRow
  removed id owner t =
      retain
        (λ r. not (
          same_row
            (record {
              workspace_id = id;
              endpoint = owner.endpoint;
              library_id = owner.library_id;
              device_id = owner.device_id;
            })
            r))
        t.runtime_owners

  owner_gone :
      (id : String) (owner : RemoteOwner) (t : Tables) (rows : List OwnerRow)
      → t.runtime_owners ≡ rows
      → any
          (same_owner owner)
          (owners_of host id (record t { runtime_owners = removed id owner t }))
        ≡ false
  owner_gone id owner t [] h = rw h refl
  owner_gone id owner t (r ∷ rows) h = rw h (
      ground (
        arith,
        eq_iff id r.workspace_id,
        eq_iff r.workspace_id id,
        owner_gone id owner (record t { runtime_owners = rows }) rows refl,
      ))

  others_kept :
      (id other : String) (owner : RemoteOwner) (t : Tables) (rows : List OwnerRow)
      → (id == other) ≡ false
      → t.runtime_owners ≡ rows
      → owners_of host other (record t { runtime_owners = removed id owner t })
        ≡ owners_of host other t
  others_kept id other owner t [] apart h = rw h refl
  others_kept id other owner t (r ∷ rows) apart h = rw h (
      ground (
        arith,
        eq_iff id r.workspace_id,
        eq_iff r.workspace_id other,
        eq_iff id other,
        others_kept id other owner (record t { runtime_owners = rows }) rows apart refl,
      ))

  -- An acknowledgement of a deletion that succeeds comes from the current generation, takes the
  -- owner off the record of the workspace and leaves the owners of a workspace with another
  -- identifier.
  pub acknowledge_removes :
      (id other : String) (owner : RemoteOwner) (generation : ℕ) (t : Tables)
      → (runtime_acknowledge_deletion host id owner generation t).1 ≡ ok tt
      → (id == other) ≡ false
      → let u = (runtime_acknowledge_deletion host id owner generation t).0 in
        (t.runtime_config.config.generation ≡ generation)
        × (any (same_owner owner) (owners_of host id u) ≡ false)
        × (owners_of host other u ≡ owners_of host other t)
  unfolding runtime_acknowledge_deletion runtime_config
  acknowledge_removes id other owner generation t h apart =
      elim (AppResult-cases (runtime_deletion_owner host id t).1) [
        | inr (e, bad) ↦ absurd (ground arith)
        | inl (current, found) ↦ ground (
          arith,
          owners-kept id t,
          owner_gone id owner t t.runtime_owners refl,
          others_kept id other owner t t.runtime_owners apart refl,
        )
      ]
