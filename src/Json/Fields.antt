-- ===== src/Json/Fields.antt =====
-- What a constructed packet holds.
use server_unit.Base.{
  ◌<◌, ◌≡◌, ◌≢◌, refl, ap, ◌∙◌, false, some, String, str_eq, eq_iff, arith, if◌then◌else◌,
}
use server_unit.Base.Int.{pos}
use server_unit.Task.{
  ServerPacketCodes, server_code, sp_handshake, sp_data_sent, sp_intr_ack, sp_fres_ack, sp_err,
  sp_ignore,
}
use server_unit.Json.{JsonLib, create}

server_code-bound : (code : ServerPacketCodes) → server_code code < 2147483648
server_code-bound sp_handshake = omega arith
server_code-bound sp_data_sent = omega arith
server_code-bound sp_intr_ack = omega arith
server_code-bound sp_fres_ack = omega arith
server_code-bound sp_err = omega arith
server_code-bound sp_ignore = omega arith

differ : (k l : String) → str_eq k l ≡ false → k ≢ l
differ k l h e = ground (arith, eq_iff k l)

module _ (J : JsonLib) where
  open J use {
    Json, object, at, assign, is_empty, of_string, of_number, get_string, get_int, at-assign_self,
    at-assign_ne, get_string-of_string, get_int-of_number,
  }

  -- What `create` does last changes no other field than the body.
  create_kept :
      (code : ServerPacketCodes) (uid key : String) (packet : Json)
      → "body" ≢ key
      → at (create J code uid packet) key
        ≡ at (assign (assign packet "head" (of_number (server_code code))) "id" (of_string uid)) key
  unfolding create
  create_kept code uid key packet ne = ground (
    arith,
    at-assign_ne (assign (assign packet "head" (of_number (server_code code))) "id" (of_string uid))
        "body" key object ne,
  )

  -- A constructed packet has the code and the worker's identifier, whatever stood there; its body
  -- is the given one or, if that is empty, an empty object; any other field is as given.
  pub create-fields :
      (code : ServerPacketCodes) (uid key : String) (packet : Json)
      → "head" ≢ key
      → "id" ≢ key
      → "body" ≢ key
      → (get_int (at (create J code uid packet) "head") ≡ some (pos (server_code code)))
        × (get_string (at (create J code uid packet) "id") ≡ some uid)
        × (at (create J code uid packet) "body"
            ≡ (if is_empty (at packet "body") then object else at packet "body"))
        × (at (create J code uid packet) key ≡ at packet key)
  unfolding create
  create-fields code uid key packet h i b =
      let headed : Json = assign packet "head" (of_number (server_code code)) in
      let named : Json = assign headed "id" (of_string uid) in
      let body : at named "body" ≡ at packet "body" =
        at-assign_ne headed "id" "body" (of_string uid) (differ "id" "body" refl)
        ∙ at-assign_ne packet "head" "body" (of_number (server_code code))
            (differ "head" "body" refl) in
      let head : at named "head" ≡ of_number (server_code code) =
        at-assign_ne headed "id" "head" (of_string uid) (differ "id" "head" refl)
        ∙ at-assign_self packet "head" (of_number (server_code code)) in
      let other : at named key ≡ at packet key =
        at-assign_ne headed "id" key (of_string uid) i
        ∙ at-assign_ne packet "head" key (of_number (server_code code)) h in
      let name : at named "id" ≡ of_string uid = at-assign_self headed "id" (of_string uid) in
      (
        ap get_int (create_kept code uid "head" packet (differ "body" "head" refl) ∙ head)
            ∙ get_int-of_number (server_code code) (server_code-bound code),
        ap get_string (create_kept code uid "id" packet (differ "body" "id" refl) ∙ name)
            ∙ get_string-of_string uid,
        ground (arith, body, at-assign_self named "body" object),
        create_kept code uid key packet b ∙ other,
      )
