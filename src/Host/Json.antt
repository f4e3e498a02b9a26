-- ===== src/Host/Json.antt =====
-- JSON values as `serde_json::Value` gives them to the Rust sources under src-tauri/src, with the
-- accessors that these use. An object is the list of its entries, each key once.
use desktop_ai_dashboard.Prelude.{
  ℕ, String, Bool, true, false, Option, none, some, List, [], ◌∷◌, ◌==◌, string_eq, if◌then◌else◌,
}

-- An unsigned integer, a negative one by its absolute value, or a float, known by the bounds that
-- its absolute value keeps within; none for one that is not finite.
pub data Number : Type 0 where
  unsigned : ℕ → Number
  negative : ℕ → Number
  float : (ℕ → Bool) → Number

mutual
  pub data Value : Type 0 where
    null : Value
    bool : Bool → Value
    number : Number → Value
    string : String → Value
    array : Values → Value
    object : Fields → Value

  pub data Values : Type 0 where
    no_values : Values
    value : Value → Values → Values

  pub data Fields : Type 0 where
    no_fields : Fields
    field : String → Value → Fields → Fields

abbrev pub field_of : String → Fields → Option Value
field_of k no_fields = none
field_of k (field j v rest) = if j == k then some v else field_of k rest

-- `value.get(key)`.
abbrev pub member : String → Value → Option Value
member k (object fields) = field_of k fields
member k _ = none

abbrev or_null : Option Value → Value
or_null none = null
or_null (some v) = v

-- `&value[key]`.
abbrev pub at : String → Value → Value
at k v = or_null (member k v)

abbrev pub as_str : Value → Option String
as_str (string s) = some s
as_str _ = none

abbrev to_list : Values → List Value
to_list no_values = []
to_list (value v rest) = v ∷ to_list rest

abbrev pub as_array : Value → Option (List Value)
as_array (array vs) = some (to_list vs)
as_array _ = none

abbrev pub as_u64 : Value → Option ℕ
as_u64 (number (unsigned n)) = some n
as_u64 _ = none

abbrev pub keys : Fields → List String
keys no_fields = []
keys (field k v rest) = k ∷ keys rest

abbrev pub is_null : Value → Bool
is_null null = true
is_null _ = false
