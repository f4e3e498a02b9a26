-- ===== src/Connectors/Status.antt =====
-- `ConnectorStatus` of src-tauri/src/connectors.rs: what the desktop knows of one connection.
use desktop_ai_dashboard.Prelude.{String, Option, List}

pub record ConnectorStatus : Type 0 where
  pub id : String
  pub provider : String
  pub scopes : List String
  pub display_name : Option String
  pub connected_at : String
  pub expires_at : String
