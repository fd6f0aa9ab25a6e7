-- ===== src/Status/Construct.antt =====
-- What holds of a status packet that was built from a validated packet.
use server_unit.Base.{
  ◌≡◌, refl, true, some, String, Returns, Returns-weaken, ap, sym, ◌∙◌, Bool-cases, inl, inr,
}
use server_unit.Base.Int.{ℤ}
use server_unit.Json.{JsonLib}
use server_unit.Json.Schema.{
  SchemaLib, prevalidator_schema, packet_id_schema, packet_stats_schema, IsTyped,
}
use server_unit.Status.{ProcessStatusPacket, blank, read_body, read_stats, new_status_packet}

module _ (J : JsonLib) {D : Type 0} (S : SchemaLib J D) where
  open J use {Json, at, get_string, get_int}
  open S use {validate}

  -- A packet that passed the checks of the socket has an identifier and a code.
  pub prevalidated :
      (packet : Json)
      → validate prevalidator_schema packet ≡ true
      → (n : ℤ) × (uid : String) × (get_int (at packet "head") ≡ some n)
        × (get_string (at packet "id") ≡ some uid)
  prevalidated packet h =
      let t : IsTyped J prevalidator_schema packet =
        S.validate-IsTyped prevalidator_schema packet h in
      let (number, ((uid, eu), _)) = t in
      let (n, en) = J.get_int-is_number (at packet "head") number in (n, uid, en, eu)

  -- The statistics are read exactly when they are valid, and nothing else of the packet changes.
  abbrev ReadsStats : Json → ProcessStatusPacket D → ProcessStatusPacket D → Type 0
  ReadsStats stats p r =
      (r.stats_present ≡ validate packet_stats_schema stats)
      × (r.packet_code ≡ p.packet_code)
      × (r.sender_uid ≡ p.sender_uid)
      × (r.table_id ≡ p.table_id)
      × (r.error_string ≡ p.error_string)

  read_stats-Returns :
      (stats : Json) (p : ProcessStatusPacket D)
      → Returns (ReadsStats stats p) (read_stats J S stats p)
  unfolding read_stats
  read_stats-Returns stats p = elim (Bool-cases (validate packet_stats_schema stats)) [
    | inr e ↦ rw (e, read_stats) (sym e, refl, refl, refl, refl)
    | inl e ↦
        let t : IsTyped J packet_stats_schema stats =
          S.validate-IsTyped packet_stats_schema stats e in
        let (time, ((ws, ew), (threads, _))) = t in
        let (m, em) = J.get_int-is_number (at stats "totalAvailableThreads") threads in
        let (d, ed) = S.get_double-number (at stats "avgQueueTime") time in
        rw (e, read_stats) (rw ed (rw ew (rw em (sym e, refl, refl, refl, refl))))
  ]

  read_body-id :
      (body : Json) (id text : String) (p : ProcessStatusPacket D)
      → get_string (at body "id") ≡ some id
      → get_string (at body "data") ≡ some text
      → read_body J S body p ≡ record p { table_id = id; error_string = text }
  unfolding read_body
  read_body-id body id text p e f = rw (e, read_body) (rw f refl)

  -- Of a packet that passed the checks of the socket and has a text for its identifier, the
  -- constructor throws nothing: the status packet has the identifier and the code of the packet. It
  -- has statistics exactly when those of the packet are valid, and where the body has an identifier
  -- and data that are texts it has these.
  pub new_status_packet-Returns :
      (junk : ProcessStatusPacket D) (packet : Json)
      → validate prevalidator_schema packet ≡ true
      → validate packet_id_schema packet ≡ true
      → Returns
          (λ p.
            (get_int (at packet "head") ≡ some p.packet_code)
            × (get_string (at packet "id") ≡ some p.sender_uid)
            × (p.stats_present ≡ validate packet_stats_schema (at packet "stats"))
            × ((id text : String)
                → get_string (at (at packet "body") "id") ≡ some id
                → get_string (at (at packet "body") "data") ≡ some text
                → (p.table_id ≡ id) × (p.error_string ≡ text)))
          (new_status_packet J S junk packet)
  unfolding new_status_packet
  new_status_packet-Returns junk packet h k =
      let (n, uid, en, eu) = prevalidated packet h in
      let body = at packet "body" in
      let read : ProcessStatusPacket D = record (read_body J S body (blank J S junk)) {
        sender_uid = uid;
        packet_code = n;
      } in
      rw (k, new_status_packet)
        (rw eu (
          rw en (
            Returns-weaken (ReadsStats (at packet "stats") read) _
              (read_stats J S (at packet "stats") read)
              (read_stats-Returns (at packet "stats") read)
              (λ p (present, code, id, table, error). (
                ap some (sym code),
                ap some (sym id),
                present,
                (λ i t ei et.
                    let e = read_body-id body i t (blank J S junk) ei et in
                    (
                      table ∙ ap (λ (r : ProcessStatusPacket D). r.table_id) e,
                      error ∙ ap (λ (r : ProcessStatusPacket D). r.error_string) e,
                    )),
              )))))
