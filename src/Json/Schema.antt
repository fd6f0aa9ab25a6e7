-- ===== src/Json/Schema.antt =====
-- The JSON schemas of the server as data, and the schema validator of lib/, a parameter, with what
-- its documentation says of the keywords that they use. Every schema says that its value is an
-- object.
use server_unit.Base.{
  ℕ, ◌≡◌, Bool, true, false, Option, none, some, List, [], ◌∷◌, String, str_eq, All, if◌then◌else◌,
}
use server_unit.Json.{JsonLib}

pub data PropertyType : Type 0 where
  string_type number_type : PropertyType

-- The bounds are "minimum" and "maximum".
pub record Property : Type 0 where
  pub name : String
  pub property_type : PropertyType
  pub bounds : Option (ℕ × ℕ)

pub record Schema : Type 0 where
  pub properties : List Property
  pub required : List String

abbrev pub string_property : String → Property
string_property name = record { name = name; property_type = string_type; bounds = none }

abbrev pub number_property : String → Property
number_property name = record { name = name; property_type = number_type; bounds = none }

-- Of socket/prevalidate_json.cpp.
abbrev pub prevalidator_schema : Schema
prevalidator_schema = record {
  properties = number_property "head" ∷ string_property "id" ∷ [];
  required = "head" ∷ "id" ∷ [];
}

-- Of packet_processor/packet_validator.cpp, for the body of a packet.
abbrev pub packet_schema : Schema
packet_schema = record {
  properties =
      string_property "id"
      ∷ record { name = "priority"; property_type = number_type; bounds = some (0, 3) }
      ∷ string_property "data"
      ∷ [];
  required = "id" ∷ "priority" ∷ "data" ∷ [];
}

-- Of packet_processor/process_status_packet.cpp.
abbrev pub packet_id_schema : Schema
packet_id_schema = record { properties = string_property "id" ∷ []; required = "id" ∷ [] }

abbrev pub packet_stats_schema : Schema
packet_stats_schema = record {
  properties =
      number_property "avgQueueTime"
      ∷ string_property "taskQueue"
      ∷ number_property "totalAvailableThreads"
      ∷ [];
  required = "avgQueueTime" ∷ "taskQueue" ∷ "totalAvailableThreads" ∷ [];
}

abbrev pub has_key : String → List String → Bool
has_key k [] = false
has_key k (l ∷ ls) = if str_eq k l then true else has_key k ls

-- The properties that must be present.
abbrev pub required_of : List String → List Property → List Property
required_of keys [] = []
required_of keys (p ∷ ps) =
    let rest = required_of keys ps in if has_key p.name keys then p ∷ rest else rest

module _ (J : JsonLib) where
  open J use {Json, at, get_string, is_number}

  -- The value is of the type.
  abbrev pub HasType : PropertyType → Json → Type 0
  HasType string_type v = (t : String) × (get_string v ≡ some t)
  HasType number_type v = is_number v ≡ true

  -- The required properties of the value are present and have their types.
  abbrev pub IsTyped : Schema → Json → Type 0
  IsTyped c j =
      All (λ p. HasType p.property_type (at j p.name)) (required_of c.required c.properties)

-- `D` is the type `double`.
pub record SchemaLib (J : JsonLib) (D : Type 0) : Type 0 where
  -- `validate` returns without an exception.
  pub validate : Schema → J.Json → Bool
  pub get_double : J.Json → Option D
  pub validate-IsTyped : (c : Schema) (j : J.Json) → validate c j ≡ true → IsTyped J c j
  pub validate-null : (c : Schema) → validate c J.null ≡ false
  pub get_double-number : (v : J.Json) → J.is_number v ≡ true → (d : D) × (get_double v ≡ some d)
