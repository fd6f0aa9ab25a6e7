-- ===== src/Json/Concrete.antt =====
-- A small JSON library: numbers, texts and objects, on which the parameter's laws hold.
use server_unit.Base.{
  ℕ, ◌≡◌, ◌≢◌, refl, Bool, true, false, Option, none, some, String, str_eq, eq_iff, eq_refl, arith,
  if◌then◌else◌, ◌&&◌, List, [], ◌∷◌, All,
}
use server_unit.Base.Int.{ℤ, pos, negsuc}
use server_unit.Json.{JsonLib}
use server_unit.Json.Schema.{
  PropertyType, string_type, number_type, Property, Schema, required_of, HasType, IsTyped,
  SchemaLib,
}

pub data Value : Type 0 where
  nothing : Value
  empty : Value
  with_field : Value → String → Value → Value
  text : String → Value
  number : ℤ → Value

abbrev pub is_a_number : Value → Bool
is_a_number (number n) = true
is_a_number _ = false

abbrev pub lookup : Value → String → Value
lookup (with_field j k v) l = let rest = lookup j l in if str_eq k l then v else rest
lookup _ l = nothing

abbrev pub has_no_field : Value → Bool
has_no_field nothing = true
has_no_field empty = true
has_no_field _ = false

abbrev pub text_of : Value → Option String
text_of (text s) = some s
text_of _ = none

abbrev pub number_of : Value → Option ℤ
number_of (number n) = some n
number_of _ = none

pub number_of-is_a_number : (v : Value) → is_a_number v ≡ true → (n : ℤ) × (number_of v ≡ some n)
number_of-is_a_number (number n) h = (n, refl)
number_of-is_a_number nothing h = absurd (cc)
number_of-is_a_number _ h = absurd (cc)

pub lookup_other :
    (j : Value) (k l : String) (v : Value) → k ≢ l → lookup (with_field j k v) l ≡ lookup j l
lookup_other j k l v ne = ground (arith, eq_iff k l)

pub lookup_same : (j : Value) (k : String) (v : Value) → lookup (with_field j k v) k ≡ v
lookup_same j k v = ground (arith, eq_refl k)

abbrev pub values : JsonLib
values = record {
  Json = Value;
  object = empty;
  null = nothing;
  is_empty = has_no_field;
  at = lookup;
  assign = with_field;
  of_string = text;
  of_number = λ n. number (pos n);
  get_string = text_of;
  get_int = number_of;
  is_number = is_a_number;
  object_is_empty = refl;
  null_is_empty = refl;
  assign_is_empty = λ j k v. refl;
  at-assign_self = lookup_same;
  at-assign_ne = lookup_other;
  get_string-of_string = λ s. refl;
  get_int-of_number = λ n l. refl;
  get_int-is_number = number_of-is_a_number;
}

-- A schema validator that looks at the required properties only; times are natural numbers.
abbrev has_type : PropertyType → Value → Bool
has_type string_type (text s) = true
has_type string_type _ = false
has_type number_type (number n) = true
has_type number_type _ = false

abbrev all_typed : List Property → Value → Bool
all_typed [] j = true
all_typed (p ∷ ps) j = has_type p.property_type (lookup j p.name) && all_typed ps j

abbrev is_object : Value → Bool
is_object empty = true
is_object (with_field j k v) = true
is_object _ = false

abbrev validates : Schema → Value → Bool
validates c j = is_object j && all_typed (required_of c.required c.properties) j

abbrev time_of : Value → Option ℕ
time_of (number (pos n)) = some n
time_of (number (negsuc n)) = some 0
time_of _ = none

has_type-HasType : (t : PropertyType) (v : Value) → has_type t v ≡ true → HasType values t v
has_type-HasType string_type (text s) h = (s, refl)
has_type-HasType string_type nothing h = absurd (cc)
has_type-HasType string_type _ h = absurd (cc)
has_type-HasType number_type (number n) h = refl
has_type-HasType number_type nothing h = absurd (cc)
has_type-HasType number_type _ h = absurd (cc)

all_typed-All :
    (ps : List Property) (j : Value)
    → all_typed ps j ≡ true
    → All (λ p. HasType values p.property_type (lookup j p.name)) ps
all_typed-All [] j h = tt
all_typed-All (p ∷ ps) j h = (
  has_type-HasType p.property_type (lookup j p.name) (ground arith),
  all_typed-All ps j (ground arith),
)

pub validates-IsTyped : (c : Schema) (j : Value) → validates c j ≡ true → IsTyped values c j
validates-IsTyped c j h = all_typed-All (required_of c.required c.properties) j (ground arith)

pub time_of-number : (v : Value) → is_a_number v ≡ true → (d : ℕ) × (time_of v ≡ some d)
time_of-number (number (pos n)) h = (n, refl)
time_of-number (number (negsuc n)) h = (0, refl)
time_of-number nothing h = absurd (cc)
time_of-number _ h = absurd (cc)

abbrev pub schemas : SchemaLib values ℕ
schemas = record {
  validate = validates;
  get_double = time_of;
  validate-IsTyped = validates-IsTyped;
  validate-null = λ c. refl;
  get_double-number = time_of-number;
}
