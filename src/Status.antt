-- ===== src/Status.antt =====
-- packet_processor/process_status_packet.cpp: what a worker's status packet changes. A call is one
-- step.
use Prim.Native.Char.{code}
use Prim.Native.String.{String}
use server_unit.Base.{
  ℕ, ◌+◌, ◌-◌, ◌/◌, ◌%◌, ◌^◌, get_value, Bool, true, false, not, Option, none, some, List, [], ◌∷◌,
  ◌==◌, if◌then◌else◌, Outcome, done, fault, ◌>>=◌, Heap,
}
use server_unit.Base.Int.{ℤ, pos, negsuc}
use server_unit.Task.{
  ServerPacketCodes, sp_intr_ack, sp_fres_ack, UserTaskStatus, data_inter, data_final, data_error,
}
use server_unit.Json.{JsonLib, create}
use server_unit.Json.Schema.{SchemaLib, packet_id_schema, packet_stats_schema}
use server_unit.Worker.{WorkerStats}
use server_unit.Worker.Ack.{match_ackable_packet}
use server_unit.Registry.{get_worker_from_uid}
use server_unit.Outgoing.{OutgoingRegistry}
use server_unit.Templates.{is_matching_found}
use server_unit.Instances
use server_unit.State.{
  Server, worker_at, with_worker, queue_new, registry_from_id, update_task_status,
}
pub mod Results
pub mod Acknowledged
mod AckExamples
pub mod Construct
pub mod Words
pub mod Frame
pub mod Examples

-- `ProcessStatusPacket`; `D` is the type `double`.
pub record ProcessStatusPacket (D : Type 0) : Type 0 where
  pub packet_code : ℤ
  pub table_id : String
  pub error_string : String
  pub sender_uid : String
  pub stats_present : Bool
  pub queue_time : D
  pub vector_string : String
  pub thread_count : ℤ

-- The words between the separators, of which there is one more than separators.
unfoldable pub words : String → List String
words String.[] = String.[] ∷ []
words (String.◌∷◌ c s) =
    let rest = words s in
    if code c == b','
    then String.[] ∷ rest
    else elim rest [ [] ↦ String.◌∷◌ c String.[] ∷ [] | w ∷ ws ↦ String.◌∷◌ c w ∷ ws ]

-- The constructor. What it leaves unset is as `junk`; the texts start empty.
module _ (J : JsonLib) {D : Type 0} (S : SchemaLib J D) where
  open J use {Json, at, get_string, get_int}
  open S use {validate, get_double}

  abbrev pub blank : ProcessStatusPacket D → ProcessStatusPacket D
  blank junk = record junk { table_id = ""; error_string = ""; sender_uid = ""; vector_string = "" }

  -- The two reads from the body in one `try`.
  unfoldable pub read_body : Json → ProcessStatusPacket D → ProcessStatusPacket D
  read_body body p = elim (get_string (at body "id")) [
    | none ↦ p
    | some id ↦ elim (get_string (at body "data")) [
      | none ↦ record p { table_id = id }
      | some text ↦ record p { table_id = id; error_string = text }
    ]
  ]

  unfoldable pub read_stats : Json → ProcessStatusPacket D → Outcome (ProcessStatusPacket D)
  read_stats stats p =
      let present = (do
        time ← get_value (get_double (at stats "avgQueueTime"))
        tasks ← get_value (get_string (at stats "taskQueue"))
        threads ← get_value (get_int (at stats "totalAvailableThreads"))
        done (record p {
          stats_present = true;
          queue_time = time;
          vector_string = tasks;
          thread_count = threads;
        })) in
      if validate packet_stats_schema stats
      then present
      else done (record p { stats_present = false })

  unfoldable pub new_status_packet : ProcessStatusPacket D → Json → Outcome (ProcessStatusPacket D)
  unfolding read_body read_stats
  new_status_packet junk packet =
      let read = (do
        uid ← get_value (get_string (at packet "id"))
        n ← get_value (get_int (at packet "head"))
        read_stats (at packet "stats") (record (read_body (at packet "body") (blank junk)) {
          sender_uid = uid;
          packet_code = n;
        })) in
      if validate packet_id_schema packet then read else done (blank junk)

module _ (stoi : String → Option ℤ) where
  -- `std::stoi` on each word; none is its exception, which nobody catches.
  unfoldable pub numbers : List String → Outcome (List ℤ)
  numbers [] = done []
  numbers (w ∷ ws) = elim (stoi w) [ none ↦ fault | some n ↦ do ns ← numbers ws; done (n ∷ ns) ]

  -- `adv_tokenizer(s, ',')`.
  unfoldable pub adv_tokenizer : String → Outcome (List ℤ)
  unfolding words numbers
  adv_tokenizer s = numbers (words s)

-- The bit `2 ^ k` of a number that is not negative.
abbrev pub has_bit : ℕ → ℕ → Bool
has_bit k n = n / 2 ^ k % 2 == 1

-- The same bit of an `int`, in two's complement.
abbrev pub int_has_bit : ℕ → ℤ → Bool
int_has_bit k (pos n) = has_bit k n
int_has_bit k (negsuc n) = not (has_bit k n)

-- `statusCode &= ~(P_QSEND)` where that bit, 64, is set, for a code that is not negative.
unfoldable pub clear_qsend : ℕ → ℕ
clear_qsend n = if has_bit 6 n then n - 64 else n

module _ (J : JsonLib) {D : Type 0} where
  open J use {Json, object}

  -- The tracker of the worker's templates, if the identifier is that of a template.
  unfoldable pub track_template : String → String → Server Json D → Outcome (Server Json D)
  track_template uid id s = do
    found ← is_matching_found id s.templates
    let s' : Server Json D = record s { templates = found.1 }
    let tracked = (do
      r ← Instances.update_worker uid id s'.instances s'.registry
      done (record s' { instances = r.0; registry = r.1 }))
    if found.0 then tracked else done s'

  -- P_DATA_ACK.
  unfoldable pub acknowledge_data : ℕ → String → Server Json D → Outcome (Server Json D)
  unfolding track_template
  acknowledge_data a id s = do
    w ← worker_at a s
    m ← match_ackable_packet s.packets s.outgoing.states id w s.timeout
    let s' = with_worker a m.worker (record s { packets = m.packets; timeout = m.timeout })
    if m.matched then track_template w.worker_uid id s' else done s'

  -- P_INTR_RES and P_FINAL_RES: the new status, and an acknowledgement for data that is known.
  unfoldable pub receive_result :
      UserTaskStatus
      → ServerPacketCodes
      → ℕ
      → ProcessStatusPacket D
      → Server Json D
      → Outcome (Server Json D)
  receive_result status ack a p s = do
    s₁ ← update_task_status p.table_id status s
    state ← registry_from_id p.table_id s₁
    if state == 0 then done s₁ else queue_new a (create J ack p.sender_uid object) state false s₁

  -- P_ERR.
  unfoldable pub receive_error : ProcessStatusPacket D → Server Json D → Outcome (Server Json D)
  receive_error p s = elim p.error_string [
    | String.[] ↦ done s
    | String.◌∷◌ c rest ↦ update_task_status p.table_id data_error s
  ]

  -- The switch on the code for the worker `a`.
  unfoldable pub dispatch : ℕ → ℕ → ProcessStatusPacket D → Server Json D → Outcome (Server Json D)
  unfolding acknowledge_data receive_result receive_error track_template
  dispatch n a p s =
      if n == 1
      then (do w ← worker_at a s; track_template w.worker_uid p.table_id s)
      else if n == 4
      then acknowledge_data a p.table_id s
      else if n == 8
      then receive_result data_inter sp_intr_ack a p s
      else if n == 16
      then receive_result data_final sp_fres_ack a p s
      else if n == 32
      then receive_error p s
      else done s

  -- The statistics that came with the packet.
  unfoldable pub set_worker_stats :
      (String → Option ℤ) → ℕ → ProcessStatusPacket D → Server Json D → Outcome (Server Json D)
  unfolding adv_tokenizer
  set_worker_stats stoi a p s =
      let set = (do
        tasks ← adv_tokenizer stoi p.vector_string
        w ← worker_at a s
        let stats : WorkerStats D = record {
          total_avilable_threads = p.thread_count;
          task_queue = tasks;
          avg_queue_time = p.queue_time;
        }
        done (with_worker a (record w { worker_stats = stats }) s)) in
      if p.stats_present then set else done s

  -- A code that is negative is no case of the switch, whether the bit is cleared or not.
  unfoldable pub dispatch_code :
      ℤ → ℕ → ProcessStatusPacket D → Server Json D → Outcome (Server Json D)
  unfolding dispatch clear_qsend
  dispatch_code (pos n) a p s = dispatch (clear_qsend n) a p s
  dispatch_code (negsuc n) a p s = done s

  unfoldable pub packet_status_parse :
      (String → Option ℤ) → ProcessStatusPacket D → Server Json D → Outcome (Server Json D)
  unfolding dispatch_code set_worker_stats
  packet_status_parse stoi p s = elim (get_worker_from_uid p.sender_uid s.registry) [
    | none ↦ done s
    | some a ↦ do s' ← dispatch_code p.packet_code a p s; set_worker_stats stoi a p s'
  ]
