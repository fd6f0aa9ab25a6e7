-- ===== src/Validator/Drain.antt =====
-- How often a validator is started.
use server_unit.Base.{
  ℕ, zero, suc, ◌≡◌, refl, ◌∙◌, ap, false, Option, some, List, [], ◌∷◌, arith, length, All, String,
  ◌==◌, if◌then◌else◌, Outcome, done, blocked, fault, Returns, Returns-eq, subst, WhenDone,
  WhenDone-bind, WhenDone-then, WhenDone-if,
}
use server_unit.Base.Int.{ℤ, pos, negsuc}
use server_unit.Task.{JobStatus, job_done, job_pending, TaskPriority, Process}
use server_unit.Json.{JsonLib}
use server_unit.Json.Schema.{SchemaLib}
use server_unit.Config.{Config}
use server_unit.Sql.{SqlLib}
use server_unit.Sink.{Sink, SinkItem, pop_object}
use server_unit.Outgoing.{find_match_in_list}
use server_unit.DataPacket.{
  DataType, ProcessDataPacket, detect_data_type, is_intermediate, create_csv_from_data,
  push_data_to_db, new_data_packet, execute_data_packet,
}
use server_unit.Status.{ProcessStatusPacket, new_status_packet, packet_status_parse}
use server_unit.Status.Frame.{packet_status_parse-same}
use server_unit.State.Statuses.{make_calls}
use server_unit.State.{Server}
use server_unit.Scheduler.Progress.{EndsIn, last, more}
use server_unit.Validator.{
  PacketValidator, validate_packet, process_data, process_packet, start_validator, end_validator,
  pause_validator,
}

-- The sinks and the task pool are as they were.
abbrev pub SameQueues : {J D : Type 0} → Server J D → Server J D → Type 0
SameQueues s s' =
    (s'.receiver_sink ≡ s.receiver_sink)
    × (s'.sender_sink ≡ s.sender_sink)
    × (s'.task_pool ≡ s.task_pool)

module _ (L : SqlLib) (cfg : Config) {J D : Type 0} where
  open L use {Db}

  create_csv_from_data-same :
      (p : ProcessDataPacket) (s : Server J D) → SameQueues s (create_csv_from_data cfg p s).1
  unfolding create_csv_from_data
  create_csv_from_data-same p s = (ground arith, ground arith, ground arith)

  Int-cases :
      (P : Db × Server J D → Type 0) (n : ℤ) (x y : Outcome (Db × Server J D))
      → WhenDone P x
      → WhenDone P y
      → WhenDone P (elim n [ negsuc k ↦ y | pos k ↦ if k == 0 then x else y ])
  Int-cases P (pos k) x y h h' = WhenDone-if P (k == 0) x y h h'
  Int-cases P (negsuc k) x y h h' = h'

  execute_data_packet-same :
      (p : ProcessDataPacket) (db : Db) (s : Server J D)
      → WhenDone (λ r. SameQueues s r.1) (execute_data_packet L cfg p db s)
  unfolding execute_data_packet
  execute_data_packet-same p db s =
      let Q = λ (r : Db × Server J D). SameQueues s r.1 in
      let p' = detect_data_type p in
      let r = create_csv_from_data cfg p' s in
      let kept = create_csv_from_data-same p' s in
      WhenDone-then Q (find_match_in_list p.table_id s.outgoing) _ (λ found.
        WhenDone-if Q found _ _
          (Int-cases Q r.0 _ _
            (WhenDone-if Q (is_intermediate p'.data_type) _ _ kept
              (WhenDone-then Q (push_data_to_db L cfg p' db) _ (λ db'. kept)))
            kept)
          (refl, refl, refl))

module _ (L : SqlLib) (cfg : Config) (J : JsonLib) {D : Type 0} (S : SchemaLib J D)
    (stoi : String → Option ℤ) (junk : DataType × ProcessStatusPacket D)
    (junk_priority : TaskPriority) where
  open L use {Db}
  open J use {Json}

  abbrev pub World : Type 0
  World = Db × Server Json D

  abbrev start : Db → Server Json D → Outcome (JobStatus × Db × Server Json D)
  start = start_validator L cfg J S stoi junk junk_priority

  process_data-same :
      (v : PacketValidator J) (db : Db) (s : Server Json D)
      → WhenDone (λ r. SameQueues s r.1) (process_data L cfg J S stoi junk junk_priority v db s)
  unfolding process_data
  process_data-same v db s =
      let Q = λ (r : Db × Server Json D). SameQueues s r.1 in
      WhenDone-if Q v.is_valid _ _
        (WhenDone-then Q (new_data_packet J junk.0 v.packet) _
          (λ p. execute_data_packet-same L cfg p db s))
        (refl, refl, refl)

  -- What a packet that was popped leads to: the job is to be started again, and the queues are as
  -- they were.
  abbrev GoesOn : Server Json D → JobStatus × Db × Server Json D → Type 0
  GoesOn s r = (r.0 ≡ job_pending) × SameQueues s r.2

  process_packet-same :
      (packet : Json) (db : Db) (s : Server Json D)
      → WhenDone (GoesOn s) (process_packet L cfg J S stoi junk junk_priority packet db s)
  unfolding process_packet
  process_packet-same packet db s =
      WhenDone-bind (λ r. SameQueues s r.1) (GoesOn s) _ _
        (process_data-same
          (validate_packet L cfg J S stoi junk junk_priority
            (record { is_valid = false; packet = packet }))
          db s)
        (λ r (a, b, c). WhenDone-then (GoesOn s) (new_status_packet J S junk.1 packet) _ (λ p.
          WhenDone-bind _ (GoesOn s) (packet_status_parse J stoi p (record r.1 { database = [] })) _
            (packet_status_parse-same J stoi p (record r.1 { database = [] }))
            (λ s' (a', b', c', _).
              WhenDone-then (GoesOn s) (make_calls L cfg s'.database r.0) _
                (λ db'. (refl, (a' ∙ a, b' ∙ b, c' ∙ c))))))

  -- All items hold a packet, as those that are pushed do.
  abbrev pub HoldsPacket : SinkItem Json → Type 0
  HoldsPacket x = (packet : Json) × (x.sink_item.data_object ≡ some packet)

  abbrev pub popped : List (SinkItem Json) → Server Json D → Server Json D
  popped rest s = record s { receiver_sink = record s.receiver_sink { sink_item_list = rest } }

  -- A start on an empty sink is the last and changes nothing. Any other, if it returns, takes one
  -- packet, asks to be started again, and leaves the sender sink and the task pool alone.
  pub Started : List (SinkItem Json) → Db → Server Json D → JobStatus × Db × Server Json D → Type 0
  Started [] db s r = (r.0 ≡ job_done) × (r.1 ≡ db) × (r.2 ≡ s)
  Started (x ∷ rest) db s r = (r.0 ≡ job_pending) × SameQueues (popped rest s) r.2

  pub start_validator_empty :
      (db : Db) (s : Server Json D)
      → s.receiver_sink.sink_item_list ≡ []
      → start db s ≡ done (job_done, db, s)
  unfolding start_validator pop_object
  start_validator_empty db s e =
      rw (e, start_validator, pop_object) (ap (λ l. done (job_done, db, popped l s)) e)

  pop_object-eq :
      (t : Sink Json) (x : SinkItem Json) (rest : List (SinkItem Json))
      → t.sink_item_list ≡ x ∷ rest
      → t.sink_lock ≡ 1
      → pop_object t junk_priority ≡ done (x.sink_item, record t { sink_item_list = rest })
  unfolding pop_object
  pop_object-eq t x rest e lock = ground arith

  start_validator_next :
      (x : SinkItem Json) (packet : Json) (rest : List (SinkItem Json)) (db : Db)
      (s : Server Json D)
      → s.receiver_sink.sink_item_list ≡ x ∷ rest
      → s.receiver_sink.sink_lock ≡ 1
      → x.sink_item.data_object ≡ some packet
      → start db s ≡ process_packet L cfg J S stoi junk junk_priority packet db (popped rest s)
  unfolding start_validator
  start_validator_next x packet rest db s e lock is =
      rw (pop_object-eq s.receiver_sink x rest e lock) (rw is refl)

  pub start_validator-Started :
      (items : List (SinkItem Json)) (db : Db) (s : Server Json D)
      → s.receiver_sink.sink_item_list ≡ items
      → s.receiver_sink.sink_lock ≡ 1
      → All HoldsPacket items
      → WhenDone (Started items db s) (start db s)
  unfolding Started
  start_validator-Started [] db s e lock h = rw (start_validator_empty db s e) (refl, refl, refl)
  start_validator-Started (x ∷ rest) db s e lock ((packet, is), h) =
      rw (start_validator_next x packet rest db s e lock is)
        (process_packet-same packet db (popped rest s))

  -- `valdiatorProcess` as the scheduler runs it; a thread that blocks or faults stays so.
  pub start_proc : Outcome World → JobStatus × Outcome World
  start_proc (done (db, s)) = elim (start db s) [
    | done (status, db', s') ↦ (status, done (db', s'))
    | blocked ↦ (job_pending, blocked)
    | fault ↦ (job_pending, fault)
  ]
  start_proc blocked = (job_pending, blocked)
  start_proc fault = (job_pending, fault)

  pub validator_process : Process (Outcome World)
  unfolding start_proc
  validator_process = record {
    start_proc = start_proc;
    pause_proc = some (λ w. (pause_validator, w));
    end_proc = λ status w. (end_validator status, w);
  }

  pub end_proc-same :
      (status : JobStatus) (w : Outcome World) → (validator_process.end_proc status w).1 ≡ w
  unfolding validator_process
  end_proc-same status w = refl

  -- The next `n` starts of the validator return.
  abbrev pub ReturnsTimes : ℕ → Db → Server Json D → Type 0
  ReturnsTimes zero db s = Unit
  ReturnsTimes (suc n) db s = Returns (λ r. ReturnsTimes n r.1 r.2) (start db s)

  pub start_proc-done :
      (db db' : Db) (s s' : Server Json D) (status : JobStatus)
      → start db s ≡ done (status, db', s')
      → validator_process.start_proc (done (db, s)) ≡ (status, done (db', s'))
  unfolding validator_process start_proc
  start_proc-done db db' s s' status e = rw (e, validator_process, start_proc) refl

  -- A validator that finds the packets `items` in the receiver sink, and can process as many
  -- without a fault, is pending once for each packet and then done, with an empty sink.
  pub start_validator-EndsIn :
      (items : List (SinkItem Json)) (db : Db) (s : Server Json D)
      → s.receiver_sink.sink_item_list ≡ items
      → s.receiver_sink.sink_lock ≡ 1
      → All HoldsPacket items
      → ReturnsTimes (length items) db s
      → (db' : Db) × (s' : Server Json D) × (s'.receiver_sink.sink_item_list ≡ [])
        × EndsIn
            (λ (t : Unit {0}). validator_process)
            tt
            job_done
            (done (db', s'))
            (length items)
            (done (db, s))
  unfolding Started
  start_validator-EndsIn [] db s e lock h r =
      (db, s, e, last (start_proc-done db db s s job_done (start_validator_empty db s e)) refl)
  start_validator-EndsIn (x ∷ rest) db s e lock h r =
      let (r', eq, later) = Returns-eq _ (start db s) r in
      let started =
        subst (WhenDone (Started (x ∷ rest) db s)) eq
          (start_validator-Started (x ∷ rest) db s e lock h) in
      let (pending, (receiver, _, _)) = started in
      let (db', s', empty, ends) =
        start_validator-EndsIn rest r'.1 r'.2 (ap (λ (t : Sink Json). t.sink_item_list) receiver)
          (ap (λ (t : Sink Json). t.sink_lock) receiver ∙ lock) h.1 later in
      (
        db',
        s',
        empty,
        more
            (start_proc-done db r'.1 s r'.2 job_pending
              (eq ∙ ap (λ (status : JobStatus). done (status, r'.1, r'.2)) pending))
            ends,
      )
