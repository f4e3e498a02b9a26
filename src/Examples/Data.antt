-- ===== src/Examples/Data.antt =====
-- Test data for the models of src-tauri/src/connectors/grants.rs, lifecycle.rs and store.rs.
use desktop_ai_dashboard.Prelude.{pos, true, none, some, [], ◌∷◌, ◌==◌, string_eq, if◌then◌else◌}
use desktop_ai_dashboard.Host.{Host}
use desktop_ai_dashboard.Connectors.Grants.Types.{
  gmail_list_metadata, gmail_metadata_scope, GrantRequest, ConnectorGrant, RuntimeReadContext,
  ActiveRead, Grants,
}
use desktop_ai_dashboard.Connectors.Status.{ConnectorStatus}

-- Every text is a canonical identifier, and two instants can be read.
abbrev pub host : Host
host = record {
  parse_uuid = λ s. some (record { canonical = s; is_nil = s == "nil" });
  parse_rfc3339 = λ s.
      if s == "1970-01-01T00:30:00Z"
      then some (pos 1800000)
      else (if s == "1970-01-01T00:01:00Z" then some (pos 60000) else none);
  parse_url = λ s. none;
}

abbrev pub request : GrantRequest
request = record {
  workspace_id = "workspace";
  device_id = "device";
  connection_id = "connection";
  operations = gmail_list_metadata ∷ [];
  expires_at = "1970-01-01T00:30:00Z";
  account_read_consented = true;
  egress = record {
    runtime_origin = "https://runtime.example";
    model_origin = "https://model.example";
    data_categories = "gmail.metadata" ∷ [];
    consented = true;
    retention = "ephemeral-run";
  };
}

abbrev pub grant : ConnectorGrant
grant = record { grant_id = "grant"; generation = 1; scope = request }

abbrev pub context : RuntimeReadContext
context = record {
  workspace_id = "workspace";
  run_id = "run";
  device_id = "device";
  connection_id = "connection";
  grant_id = "grant";
  generation = 1;
  runtime_origin = "https://runtime.example";
  model_origin = "https://model.example";
  operation = gmail_list_metadata;
  args = "{}";
  expires_at = "1970-01-01T00:01:00Z";
}

abbrev pub read : ActiveRead
read = record { id = "read"; context = context; cancel = 7 }

-- A table with one grant.
abbrev pub granted : Grants
granted = record { items = ("grant", grant) ∷ []; active = []; cancelled_runs = []; cancelled = [] }

-- The same table with a read under way.
abbrev pub reading : Grants
reading = record granted { active = ("connection", read) ∷ [] }

abbrev pub connection : ConnectorStatus
connection = record {
  id = "connection";
  provider = "google";
  scopes = gmail_metadata_scope ∷ [];
  display_name = none;
  connected_at = "1970-01-01T00:00:00Z";
  expires_at = "1970-01-01T00:30:00Z";
}
