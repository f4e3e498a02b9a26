-- ===== src/Examples/Interfaces.antt =====
-- A run of the validator of presentations (src-tauri/src/runtime/interfaces.rs).
use desktop_ai_dashboard.Prelude.{ℤ, String, none, Option, List, [], ◌∷◌, string_eq, nat_eq}
use desktop_ai_dashboard.Host.Json.{Value, Values, Fields}
use desktop_ai_dashboard.Host.Json as Json
use desktop_ai_dashboard.Runtime.Interfaces.{object, array}

abbrev fields : List (String × Value) → Fields
fields [] = Json.no_fields
fields ((k, v) ∷ rest) = Json.field k v (fields rest)

abbrev struct : List (String × Value) → Value
struct entries = Json.object (fields entries)

abbrev array_of : List Value → Value
array_of vs = Json.array (values vs)
  where
    values : List Value → Values
    values [] = Json.no_values
    values (v ∷ rest) = Json.value v (values rest)

abbrev leaf : Value
leaf = struct (
    ("id", Json.string "hello")
    ∷ (("type", Json.string "text") ∷ (("text", Json.string "Hi") ∷ [])))

abbrev spec : Value
spec = struct (
    ("schemaVersion", Json.number (Json.unsigned 1))
    ∷ (("kind", Json.string "components")
        ∷ ((
          "root",
          struct (
              ("id", Json.string "root")
              ∷ (("type", Json.string "stack") ∷ (("children", array_of (leaf ∷ [])) ∷ []))),
        )
            ∷ (("datasets", array_of []) ∷ []))))

abbrev no_instants : String → Option ℤ
no_instants s = none
