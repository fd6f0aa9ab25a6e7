-- ===== src/Json.antt =====
-- The JSON library (include/json.hpp and lib/) is third-party code and a parameter: a type of
-- values with the operations that the server calls, and what their documentation says of them.
pub mod Fields
pub mod Schema
pub mod Concrete
use server_unit.Base.{ℕ, ◌<◌, ◌≡◌, ◌≢◌, Bool, true, false, Option, some, String, if◌then◌else◌}
use server_unit.Base.Int.{ℤ, pos}
use server_unit.Task.{ServerPacketCodes, server_code}

pub record JsonLib : Type 1 where
  pub Json : Type 0
  -- `json({})`, and the value of a default-constructed `json`.
  pub object : Json
  pub null : Json
  -- `j.empty()`: true of null and of an object with no fields.
  pub is_empty : Json → Bool
  -- `j[key]` and `j[key] = v`; reading an absent key gives null.
  pub at : Json → String → Json
  pub assign : Json → String → Json → Json
  pub of_string : String → Json
  pub of_number : ℕ → Json
  -- Conversions; none is the exception that a value of another type makes.
  pub get_string : Json → Option String
  pub get_int : Json → Option ℤ
  -- `j.is_number()`, which is false of a Boolean, though `get<int>` converts one.
  pub is_number : Json → Bool
  pub object_is_empty : is_empty object ≡ true
  pub null_is_empty : is_empty null ≡ true
  pub assign_is_empty : (j : Json) (k : String) (v : Json) → is_empty (assign j k v) ≡ false
  pub at-assign_self : (j : Json) (k : String) (v : Json) → at (assign j k v) k ≡ v
  pub at-assign_ne : (j : Json) (k l : String) (v : Json) → k ≢ l → at (assign j k v) l ≡ at j l
  pub get_string-of_string : (s : String) → get_string (of_string s) ≡ some s
  pub get_int-of_number : (n : ℕ) → n < 2147483648 → get_int (of_number n) ≡ some (pos n)
  pub get_int-is_number : (v : Json) → is_number v ≡ true → (n : ℤ) × (get_int v ≡ some n)

module _ (J : JsonLib) where
  open J use {Json, object, at, assign, is_empty, of_string, of_number}

  -- `PacketConstructor::create` of packet_processor/packet_constructor.cpp.
  unfoldable pub create : ServerPacketCodes → String → Json → Json
  create code uid packet =
      let headed = assign packet "head" (of_number (server_code code)) in
      let named = assign headed "id" (of_string uid) in
      if is_empty (at named "body") then assign named "body" object else named
