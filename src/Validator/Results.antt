-- ===== src/Validator/Results.antt =====
-- What a validator does with a worker's result.
use server_unit.Base.{
  ◌>>=◌, Bool-cases, inl, inr, ltb, Returns-of_eq, Returns-weaken, ℕ, ◌+◌, ◌≤◌, ◌≡◌, ◌≢◌, refl, ap,
  sym, ◌∙◌, ◌⊎◌, true, false, Option, some, List, [], ◌∷◌, ◌++◌, String, str_eq, length,
  if◌then◌else◌, done, Returns, Returns-bind, Returns-eq, subst,
}
use server_unit.Base.Int.{ℤ, pos}
use server_unit.Task.{
  JobStatus, status_code, job_pending, TaskPriority, UserTaskStatus, ServerPacketCodes,
}
use server_unit.Json.{JsonLib, create}
use server_unit.Json.Schema.{
  SchemaLib, prevalidator_schema, packet_schema, packet_id_schema, packet_stats_schema,
}
use server_unit.Config.{Config, database_url}
use server_unit.Sql.{SqlLib}
use server_unit.Sink.{SinkItem, pop_object}
use server_unit.Worker.{OutgoingDataState, Worker, new_packet}
use server_unit.Registry.{get_worker_from_uid, find_worker}
use server_unit.Outgoing.{OutgoingRegistry, find_match_in_list, user_status_enum_to_string}
use server_unit.Outgoing.Status.{Tracks, later, find_entry-Tracks}
use server_unit.DataPacket.{DataType, ProcessDataPacket, new_data_packet}
use server_unit.DataPacket.Results.{csv_of, update_of, execute_data_packet-stores}
use server_unit.Status.{ProcessStatusPacket, new_status_packet, packet_status_parse, int_has_bit}
use server_unit.Status.Construct.{new_status_packet-Returns}
use server_unit.Status.Results.{Answers, packet_status_parse-Answers}
use server_unit.State.{Server}
use server_unit.State.Tracked.{status_calls}
use server_unit.State.Statuses.{make_calls, status_statement}
use server_unit.State.Agreement.{update_status_in_db-eq}
use server_unit.Validator.{validate_packet, process_data, process_packet, start_validator}

find_match_in_list-Tracks :
    {o : OutgoingRegistry} {id : String} {q : ℕ} {st : OutgoingDataState}
    → Tracks o id q st
    → find_match_in_list id o ≡ done true
unfolding find_match_in_list
find_match_in_list-Tracks t = rw (find_entry-Tracks t) refl

module _ (J : JsonLib) {D : Type 0} (S : SchemaLib J D) where
  open J use {Json, at, get_string, get_int}
  open S use {validate}

  -- A result: it passed the checks of the socket, its body is that of a data packet with data for
  -- `id`, it comes from `uid` with the given code, and no statistics are with it.
  pub record IsResult (packet : Json) (code : ℕ) (uid id content : String) : Type 0 where
    pub valid : validate prevalidator_schema packet ≡ true
    pub named : validate packet_id_schema packet ≡ true
    pub has_data : validate packet_schema (at packet "body") ≡ true
    pub plain : validate packet_stats_schema (at packet "stats") ≡ false
    pub code_is : get_int (at packet "head") ≡ some (pos code)
    pub uid_is : get_string (at packet "id") ≡ some uid
    pub id_is : get_string (at (at packet "body") "id") ≡ some id
    pub content_is : get_string (at (at packet "body") "data") ≡ some content
    pub present : (str_eq content "") ≡ false

  abbrev data_packet : DataType → ℕ → String → String → String → ProcessDataPacket
  data_packet junk code uid id content = record {
    data_type = junk;
    table_id = id;
    content = content;
    worker_uid = uid;
    packet_staus_code = pos code;
  }

  new_data_packet-eq :
      (junk : DataType) (packet : Json) (code : ℕ) (uid id content : String)
      → IsResult packet code uid id content
      → new_data_packet J junk packet ≡ done (data_packet junk code uid id content)
  unfolding new_data_packet
  new_data_packet-eq junk packet code uid id content r =
      rw r.id_is (rw r.content_is (rw r.code_is (rw r.uid_is refl)))

  module _ (L : SqlLib) (cfg : Config) (stoi : String → Option ℤ)
      (junk : DataType × ProcessStatusPacket D) (junk_priority : TaskPriority) where
    open L use {Db, run, connects}

    -- The file is written.
    abbrev pub stored : ℕ → String → String → Server Json D → Server Json D
    stored code id content s = record s {
      files = s.files ++ (csv_of cfg (int_has_bit 3 (pos code)) id, content) ∷ [];
    }

    abbrev pub written : ℕ → String → String → Db → Db
    written code id content db =
        if int_has_bit 3 (pos code) then db else (run (update_of content id) db).1

    -- The statement of an update of the status, which an earlier status does not get.
    abbrev pub status_written : UserTaskStatus → UserTaskStatus → String → Db → Db
    status_written old new id db =
        if ltb (status_code new) (status_code old)
        then db
        else (run (status_statement (user_status_enum_to_string new) id) db).1

    make_calls-status_calls :
        (old new : UserTaskStatus) (id : String) (db : Db)
        → connects database_url cfg.database_username cfg.database_password ≡ true
        → make_calls L cfg (status_calls old new id) db ≡ done (status_written old new id db)
    unfolding make_calls
    make_calls-status_calls old new id db conn =
        elim (Bool-cases (ltb (status_code new) (status_code old))) [
          | inl e ↦ rw e refl
          | inr e ↦
              rw e
                (rw (update_status_in_db-eq L cfg conn (user_status_enum_to_string new) id db) refl)
        ]

    process_data-eq :
        (packet : Json) (code q : ℕ) (uid id content : String) (st : OutgoingDataState) (db : Db)
        (s : Server Json D)
        → IsResult packet code uid id content
        → connects database_url cfg.database_username cfg.database_password ≡ true
        → Tracks s.outgoing id q st
        → process_data L cfg J S stoi junk junk_priority
            (record { is_valid = true; packet = packet })
            db
            s
          ≡ done (written code id content db, stored code id content s)
    unfolding process_data
    process_data-eq packet code q uid id content st db s r c t =
        rw (new_data_packet-eq junk.0 packet code uid id content r) (
          execute_data_packet-stores L cfg (data_packet junk.0 code uid id content) db s true
            (find_match_in_list-Tracks t) c
          ∙ rw r.present refl)

    abbrev popped : List (SinkItem Json) → Server Json D → Server Json D
    popped rest s = record s { receiver_sink = record s.receiver_sink { sink_item_list = rest } }

    -- The status, the queue of the worker and the acknowledgement after a result.
    abbrev pub Answered :
        ℕ
        → ℕ
        → String
        → String
        → UserTaskStatus
        → ServerPacketCodes
        → OutgoingDataState
        → Worker D
        → ℕ
        → Server Json D
        → Type 0
    Answered a q id uid status ack st w fresh s' =
        Tracks s'.outgoing id q (record st { task_status = later st.task_status status })
        × (find_worker a s'.registry.current_worker_list
            ≡ some (record w { sender_queue = w.sender_queue ++ fresh ∷ [] }))
        × (s'.packets fresh ≡ some (new_packet (create J ack uid J.object) q false))

    -- The same right after the status packet, with the calls on the database that are to be made.
    abbrev Parsed :
        ℕ
        → ℕ
        → String
        → String
        → UserTaskStatus
        → ServerPacketCodes
        → OutgoingDataState
        → Worker D
        → ℕ
        → Server Json D
        → Type 0
    Parsed a q id uid status ack st w fresh s' =
        Answered a q id uid status ack st w fresh s'
        × (s'.database ≡ status_calls st.task_status status id)

    process_packet-Answers :
        (packet : Json) (n code a q : ℕ) (uid id content : String) (status : UserTaskStatus)
        (ack : ServerPacketCodes) (st : OutgoingDataState) (w : Worker D) (db : Db)
        (s : Server Json D)
        → IsResult packet code uid id content
        → Answers n status ack
        → (code ≡ n) ⊎ (code ≡ n + 64)
        → connects database_url cfg.database_username cfg.database_password ≡ true
        → Tracks s.outgoing id q st
        → q ≢ 0
        → s.reachable ≡ true
        → get_worker_from_uid uid s.registry ≡ some a
        → find_worker a s.registry.current_worker_list ≡ some w
        → w.worker_lock ≡ 1
        → length w.sender_queue ≤ 20
        → Returns
            (λ r.
              (r.0 ≡ job_pending)
              × (r.1 ≡ status_written st.task_status status id (written code id content db))
              × Answered a q id uid status ack st w s.next_address r.2)
            (process_packet L cfg J S stoi junk junk_priority packet db s)
    unfolding process_packet validate_packet
    process_packet-Answers packet n code a q uid id content status ack st w db s r ans c conn t nz
          up known found free room =
        let (p, made, (ecode, euid, epresent, ebody)) =
          Returns-eq _ (new_status_packet J S junk.1 packet)
            (new_status_packet-Returns J S junk.1 packet r.valid r.named) in
        let e_uid : p.sender_uid ≡ uid = cc (euid, r.uid_is) in
        let e_code : p.packet_code ≡ pos code = cc (ecode, r.code_is) in
        let e_id : p.table_id ≡ id = (ebody id content r.id_is r.content_is).0 in
        let s' : Server Json D = record (stored code id content s) { database = [] } in
        let answered =
          packet_status_parse-Answers J stoi n code a q status ack p st w s' ans e_code c
            (epresent ∙ r.plain) (ap (λ u. get_worker_from_uid u s.registry) e_uid ∙ known) found
            free room (subst (λ i. Tracks s.outgoing i q st) (sym e_id) t) nz up in
        let db₁ = written code id content db in
        let Q = λ (r : JobStatus × Db × Server Json D).
          (r.0 ≡ job_pending)
          × (r.1 ≡ status_written st.task_status status id db₁)
          × Answered a q id uid status ack st w s.next_address r.2 in
        let finish = λ (s'' : Server Json D) (db' : Db).
          done (job_pending, db', record s'' { database = s.database ++ s''.database }) in
        let parsed =
          Returns-weaken _ (Parsed a q p.table_id p.sender_uid status ack st w s.next_address)
            (packet_status_parse J stoi p s') answered (λ v (t, f, k, b). ((t, f, k), b)) in
        let named =
          subst
            (λ u.
              Returns (Parsed a q p.table_id u status ack st w s.next_address)
                (packet_status_parse J stoi p s'))
            e_uid parsed in
        let acked =
          subst
            (λ i.
              Returns (Parsed a q i uid status ack st w s.next_address)
                (packet_status_parse J stoi p s'))
            e_id named in
        rw (r.has_data, process_packet, validate_packet)
          (rw (process_data-eq packet code q uid id content st db s r conn t) (
            rw made (
              Returns-bind (Parsed a q id uid status ack st w s.next_address) Q
                (packet_status_parse J stoi p s') _ acked
                (λ s'' (h, calls).
                  Returns-of_eq Q (make_calls L cfg s''.database db₁ >>= finish s'')
                    (ap (λ cs. make_calls L cfg cs db₁ >>= finish s'') calls
                      ∙ ap (λ o. o >>= finish s'')
                          (make_calls-status_calls st.task_status status id db₁ conn))
                    (refl, refl, h)))))

    start_validator-eq :
        (packet : Json) (priority : TaskPriority) (counter : ℕ) (rest : List (SinkItem Json))
        (db : Db) (s : Server Json D)
        → s.receiver_sink.sink_lock ≡ 1
        → s.receiver_sink.sink_item_list
          ≡ record {
            sink_item = record { data_object = some packet; task_priority = priority };
            starve_counter = counter;
          }
            ∷ rest
        → start_validator L cfg J S stoi junk junk_priority db s
          ≡ process_packet L cfg J S stoi junk junk_priority packet db (popped rest s)
    unfolding start_validator pop_object
    start_validator-eq packet priority counter rest db s free e =
        rw (e, start_validator, pop_object) (rw free refl)

    -- A turn of the validator on an unlocked sink whose first item is a result without statistics
    -- for data that is tracked at `q`, from a connected worker with a free lock and at most 20
    -- queued packets, while the database can be reached: the job is to be started again; a final
    -- result, and no intermediate one, is written to the database; then, for either, its status is
    -- written there, unless the data had a later one; the data has the later of its status and that
    -- of the result, and the last packet in the queue of the worker is the acknowledgement.
    pub start_validator-Answers :
        (packet : Json) (n code a q : ℕ) (uid id content : String) (status : UserTaskStatus)
        (ack : ServerPacketCodes) (st : OutgoingDataState) (w : Worker D) (db : Db)
        (s : Server Json D) (priority : TaskPriority) (counter : ℕ) (rest : List (SinkItem Json))
        → s.receiver_sink.sink_lock ≡ 1
        → s.receiver_sink.sink_item_list
          ≡ record {
            sink_item = record { data_object = some packet; task_priority = priority };
            starve_counter = counter;
          }
            ∷ rest
        → IsResult packet code uid id content
        → Answers n status ack
        → (code ≡ n) ⊎ (code ≡ n + 64)
        → connects database_url cfg.database_username cfg.database_password ≡ true
        → Tracks s.outgoing id q st
        → q ≢ 0
        → s.reachable ≡ true
        → get_worker_from_uid uid s.registry ≡ some a
        → find_worker a s.registry.current_worker_list ≡ some w
        → w.worker_lock ≡ 1
        → length w.sender_queue ≤ 20
        → Returns
            (λ r.
              (r.0 ≡ job_pending)
              × (r.1 ≡ status_written st.task_status status id (written code id content db))
              × Answered a q id uid status ack st w s.next_address r.2)
            (start_validator L cfg J S stoi junk junk_priority db s)
    start_validator-Answers packet n code a q uid id content status ack st w db s priority counter
          rest lock top r ans c conn t nz up known found free room =
        rw (start_validator-eq packet priority counter rest db s lock top) (
          process_packet-Answers packet n code a q uid id content status ack st w db (popped rest s)
            r ans c conn t nz up known found free room)
