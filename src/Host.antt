-- ===== src/Host.antt =====
-- What the Rust sources under src-tauri/src take from crates that the repository does not contain:
-- `uuid`, `chrono` and `url`. Each is a function that the definitions take as an argument.
pub mod Json
use desktop_ai_dashboard.Prelude.{ℕ, ℤ, Bool, String, Option, List}

-- `Uuid::parse_str`: the text that the value prints as, and whether it is the nil UUID.
pub record Uuid : Type 0 where
  pub canonical : String
  pub is_nil : Bool

-- The accessors of a parsed `Url`, as far as they are read.
pub record Url : Type 0 where
  pub text : String
  pub scheme : String
  pub username : String
  pub password : Option String
  pub host : Option String
  pub port : Option ℕ
  pub path : String
  pub query : Option String
  pub query_pairs : List (String × String)
  pub fragment : Option String
  pub origin : String

pub record Host : Type 0 where
  pub parse_uuid : String → Option Uuid
  -- `DateTime::parse_from_rfc3339`, as milliseconds since the epoch.
  pub parse_rfc3339 : String → Option ℤ
  pub parse_url : String → Option Url
