-- ===== src/Store/Tables.antt =====
-- The tables of src-tauri/src/store.rs and src-tauri/src/runtime/storage.rs, and statements on them.
-- A table is the list of its rows in the order of insertion, and a JSON column holds the value that
-- its text decodes to. Failures of the database itself are not modelled.
use desktop_ai_dashboard.Prelude.{
  ℕ, suc, String, Bool, true, false, Option, none, some, List, [], ◌∷◌, AppResult, ok, err,
  if◌then◌else◌,
}
use desktop_ai_dashboard.Runtime.Dto.{
  Capabilities, RuntimeModel, StoredRuntime, RuntimeWorkspace, StoredRequest,
}

pub record SettingsInput : Type 0 where
  pub onboarding_complete : Bool
  pub onboarding_step : ℕ
  pub display_name : String
  pub ambient_motion : Bool

pub record ProviderConfig : Type 0 where
  pub label : String
  pub base_url : String
  pub model : String
  pub has_key : Bool
  pub verified : Bool
  pub last_checked_at : Option String

pub record StoredProvider : Type 0 where
  pub config : ProviderConfig
  pub generation : ℕ
  pub credential : Option String

-- `CHECK(role IN ('user','assistant'))`.
pub data Role : Type 0 where
  user assistant : Role

-- `CHECK(status IN ('complete','pending','error','cancelled'))`.
pub data Status : Type 0 where
  complete pending error cancelled : Status

abbrev pub is_pending : Status → Bool
is_pending pending = true
is_pending _ = false

abbrev pub is_complete : Status → Bool
is_complete complete = true
is_complete _ = false

pub record WorkspaceRow : Type 0 where
  pub id : String
  pub title : String
  pub created_at : String
  pub updated_at : String
  pub draft : String
  pub draft_version : ℕ

pub record MessageRow : Type 0 where
  pub id : String
  pub workspace_id : String
  pub role : Role
  pub content : String
  pub status : Status
  pub created_at : String
  pub request_id : String
  pub generation : ℕ

-- A row of `runtime_workspaces`.
pub record RouteRow : Type 0 where
  pub workspace_id : String
  pub value : RuntimeWorkspace
  pub endpoint_generation : String

pub record RequestRow : Type 0 where
  pub request_id : String
  pub workspace_id : String
  pub value : StoredRequest

-- A row of `runtime_owners` or `runtime_sessions`.
pub record OwnerRow : Type 0 where
  pub workspace_id : String
  pub endpoint : String
  pub library_id : String
  pub device_id : String

pub record Tables : Type 0 where
  pub preferences : SettingsInput
  pub provider : StoredProvider
  pub workspaces : List WorkspaceRow
  pub request_ids : List String
  pub messages : List MessageRow
  pub runtime_config : StoredRuntime
  pub capabilities : Option Capabilities
  pub models : List RuntimeModel
  pub runtime_workspaces : List RouteRow
  pub runtime_requests : List RequestRow
  pub runtime_sessions : List OwnerRow
  pub runtime_owners : List OwnerRow
  pub legacy_requests : List RequestRow
  pub legacy_owners : List OwnerRow

-- An operation on the database: what it has changed stays changed when it fails.
abbrev pub Db {ℓ} : Type ℓ → Type ℓ
Db A = Tables → Tables × AppResult A

infixl 5 ◌>>=◌ ◌>>◌
abbrev pub ◌>>=◌ {ℓ κ} : {A : Type ℓ} {B : Type κ} → Db A → (A → Db B) → Db B
◌>>=◌ m f t = elim (m t).1 [ ok a ↦ f a (m t).0 | err e ↦ ((m t).0, err e) ]

abbrev pub ◌>>◌ {ℓ} : {B : Type ℓ} → Db (Unit {0}) → Db B → Db B
m >> k = m >>= λ _. k

-- A check or a query.
abbrev pub query {ℓ} : {A : Type ℓ} → (Tables → AppResult A) → Db A
query f t = (t, f t)

abbrev pub lift {ℓ} : {A : Type ℓ} → AppResult A → Db A
lift r t = (t, r)

abbrev pub execute : (Tables → Tables) → Db (Unit {0})
execute f t = (f t, ok tt)

-- What is dropped without `commit` is rolled back.
abbrev pub transaction {ℓ} : {A : Type ℓ} → Db A → Db A
transaction m t = elim (m t).1 [ ok a ↦ ((m t).0, ok a) | err e ↦ (t, err e) ]

module _ {ℓ} {A : Type ℓ} where
  -- `UPDATE … SET … WHERE …`, and the number of rows that it changes.
  abbrev pub update : (A → Bool) → (A → A) → List A → List A
  update p f [] = []
  update p f (x ∷ xs) = (if p x then f x else x) ∷ update p f xs

  abbrev pub count : (A → Bool) → List A → ℕ
  count p [] = 0
  count p (x ∷ xs) = if p x then suc (count p xs) else count p xs

  abbrev pub find : (A → Bool) → List A → Option A
  find p [] = none
  find p (x ∷ xs) = if p x then some x else find p xs
