-- ===== src/Examples/Core.antt =====
-- Runs of the provider client and of the native core (src-tauri/src/provider.rs, core.rs and
-- runtime/managed.rs).
use desktop_ai_dashboard.Runtime.Storage.{status_of}
use desktop_ai_dashboard.Prelude.{
  String, true, false, none, some, List, [], ◌∷◌, ◌≡◌, ◌↔◌, ◌⊎◌, refl, Option, ◌==◌, string_eq,
  nat_eq, if◌then◌else◌, arith, AppError, AppResult, ok, err, stale, missing,
}
use desktop_ai_dashboard.Prelude.Maps.{get, insert, remove}
use desktop_ai_dashboard.Prelude.Texts.{trim, trim_start, trim_end}
use desktop_ai_dashboard.Prelude.Scans.{
  chars, has_infix, strip_prefix, split, split_once, trim_matches, trim_start_matches,
  trim_end_matches, same_chars,
}
use desktop_ai_dashboard.Prelude.Addresses.{parse_ip}
use desktop_ai_dashboard.Host.{Host, Url}
use desktop_ai_dashboard.Validation
use desktop_ai_dashboard.Validation.{max_version}
use desktop_ai_dashboard.Validation.Endpoints.{
  endpoint, private_http, allowed_address, is_bad_path, trim_slashes,
}
use desktop_ai_dashboard.Provider.{credential_matches, credential_reference}
use desktop_ai_dashboard.Provider.References.{credential_matches_iff}
use desktop_ai_dashboard.Runtime.Dto.{RuntimeModel}
use desktop_ai_dashboard.Store.Tables.{ProviderConfig}
use desktop_ai_dashboard.Store.Chats.{invalidate_provider}
use desktop_ai_dashboard.Runtime.Storage.{runtime_save_config}
use desktop_ai_dashboard.Core.{Core, Credentials, key, is_cancelled}
use desktop_ai_dashboard.Core.Managed.{
  provider_changed, accept_snapshot, validate_capabilities, state_of,
}
use desktop_ai_dashboard.Core.Configuration.{
  ProviderInput, configure, admit, save_key, store_provider, follow_up, commit, remove_old,
}
use desktop_ai_dashboard.Core.Configured.{KeepsWork, IsStored, configure-atomic}
use desktop_ai_dashboard.Core.Resets.{IsConfigured, holds_token, configure-IsConfigured}
use desktop_ai_dashboard.Core.Checks.{Discovery, begin_discovery, finish_discovery}
use desktop_ai_dashboard.Core.Answers.{configure-finish_discovery}
use desktop_ai_dashboard.Core.Bindings.{Acknowledged, Matches, SameDevice, accept_snapshot_cases}
use desktop_ai_dashboard.Examples.Chats.{opened}
use desktop_ai_dashboard.Examples.RunData.{caps}

abbrev models : List String
models = "claude-opus-3-5" ∷ "claude-opus-4-1" ∷ "claude-opus-4-1-latest" ∷ "other" ∷ []

-- Every text parses as a page of api.example, and is a canonical identifier.
abbrev page : String → Url
page s = record {
  text = s;
  scheme = "https";
  username = "";
  password = none;
  host = some "api.example";
  port = none;
  path = "/v1";
  query = none;
  query_pairs = [];
  fragment = none;
  origin = "https://api.example";
}

abbrev crates : Host
crates = record {
  parse_uuid = λ s. some (record { canonical = s; is_nil = false });
  parse_rfc3339 = λ s. none;
  parse_url = λ s. some (page s);
}

-- A digest that tells the two endpoints of the examples apart.
abbrev digest : String → String
digest s = if s == "https://api.example/v1" then "aa" else "bb"

credential_matches_iff_example :
    (credential_matches crates digest "other"
        (credential_reference digest "https://api.example/v1" "fresh")
      ≡ true)
    ↔ (digest "https://api.example/v1" ≡ digest "other")
unfolding Validation.id
credential_matches_iff_example =
    credential_matches_iff crates digest "https://api.example/v1" "other" "fresh" refl refl

-- The saved keys in a map.
abbrev Keys : Type 0
Keys = List (String × String)

abbrev found : Option String → AppResult String
found none = err missing
found (some k) = ok k

abbrev keyring : Credentials Keys
keyring = record {
  read = λ reference keys. found (get reference keys);
  write = λ reference secret keys. (ok tt, insert reference secret keys);
  remove = λ reference keys. (ok tt, remove reference keys);
}

abbrev ready : Core Keys
ready = record {
  tables = record opened {
    provider = record {
      config = record {
        label = "";
        base_url = "https://old.example";
        model = "old";
        has_key = false;
        verified = true;
        last_checked_at = none;
      };
      generation = 7;
      credential = none;
    };
  };
  keys = [];
  runtime_requests = ("request", 3) ∷ [];
  synced_model_generation = some 7;
  check = some 5;
  discovery = none;
  tokens = 6;
  cancelled = [];
}

abbrev input : ProviderInput
input = record {
  label = "Example";
  base_url = "https://api.example/v1";
  model = "model";
  api_key = some "secret-key";
  clear_key = false;
}

configure-atomic_example :
    let done = configure crates digest keyring input "fresh" "epoch" ready in
    ((e : AppError) × (done.0 ≡ err e) × KeepsWork ready done.1)
    ⊎ ((base : String) × (admit crates input ≡ ok base)
        × IsStored digest input base "fresh" ready.tables.provider done.1.tables.provider)
configure-atomic_example = configure-atomic crates digest keyring input "fresh" "epoch" ready

abbrev new_config : ProviderConfig
new_config = record {
  label = "Example";
  base_url = "https://api.example/v1";
  model = "model";
  has_key = true;
  verified = false;
  last_checked_at = none;
}

admitted : admit crates input ≡ ok "https://api.example/v1"
unfolding admit Validation.single_line Validation.text Validation.model Validation.api_key endpoint
    private_http allowed_address is_bad_path trim_slashes trim trim_start trim_end chars has_infix
    strip_prefix split split_once trim_matches trim_start_matches trim_end_matches same_chars
    parse_ip
admitted = refl

configured : (configure crates digest keyring input "fresh" "epoch" ready).0 ≡ ok new_config
unfolding configure save_key store_provider follow_up commit remove_old provider_changed
    invalidate_provider runtime_save_config get insert remove credential_reference trim
configured = rw admitted refl

configure-IsConfigured_example :
    let d = (configure crates digest keyring input "fresh" "epoch" ready).1 in
    IsConfigured crates digest keyring new_config ready d
    × ((holds_token 5 ready ≡ false) ⊎ (is_cancelled 5 d ≡ true))
configure-IsConfigured_example =
    configure-IsConfigured crates digest keyring input "fresh" "epoch" new_config ready 5 configured

-- The same core with nothing going on.
abbrev idle : Core Keys
idle = record ready { check = none; discovery = none }

abbrev begun : Core Keys
begun = (begin_discovery crates digest keyring idle).1

abbrev started : Discovery
started = record { base = "https://old.example"; generation = 7; key = none; token = 6 }

begun_ok : (begin_discovery crates digest keyring idle).0 ≡ ok started
unfolding begin_discovery key
begun_ok = refl

reconfigured : (configure crates digest keyring input "fresh" "epoch" begun).0 ≡ ok new_config
unfolding configure save_key store_provider follow_up commit remove_old provider_changed
    invalidate_provider runtime_save_config get insert remove credential_reference trim
    begin_discovery key
reconfigured = rw admitted refl

abbrev after_configure : Core Keys
after_configure = (configure crates digest keyring input "fresh" "epoch" begun).1

configure-finish_discovery_example :
    finish_discovery started (ok models) after_configure ≡ (err stale, after_configure)
configure-finish_discovery_example =
    configure-finish_discovery crates digest keyring idle after_configure started input "fresh"
      "epoch" new_config (ok models) begun_ok reconfigured (omega arith)

abbrev runtime_models : List RuntimeModel
runtime_models = []

accept_snapshot_cases_example :
    let done = accept_snapshot crates caps runtime_models (some 7) ready in
    ((e : AppError) × (done ≡ (err e, ready)))
    ⊎ ((done.0 ≡ ok (status_of done.1.tables))
        × (validate_capabilities crates caps runtime_models ≡ ok tt)
        × Acknowledged crates (some 7) caps ready.tables.provider
        × Matches ready.tables.runtime_config.bound_library_id caps.library_id
        × Matches ready.tables.runtime_config.bound_device_id caps.device_id
        × SameDevice ready.tables.capabilities caps
        × (done.1.tables.capabilities ≡ some caps)
        × (done.1.tables.runtime_config.bound_library_id ≡ some caps.library_id)
        × (done.1.tables.runtime_config.bound_device_id ≡ some caps.device_id)
        × (done.1.tables.runtime_config.config.verified ≡ true)
        × (done.1.tables.runtime_config.state ≡ state_of caps)
        × (done.1.tables.provider ≡ ready.tables.provider))
accept_snapshot_cases_example = accept_snapshot_cases crates caps runtime_models (some 7) ready
