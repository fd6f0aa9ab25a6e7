-- ===== src/Validator.antt =====
-- packet_processor/packet_validator.cpp: the job that takes a worker's packet from the receiver
-- sink. A call is one step.
pub mod Results
pub mod Drain
pub mod Turns
mod Examples
use server_unit.Base.{
  [], ◌++◌, ℕ, Bool, Option, none, some, String, if◌then◌else◌, Outcome, done, ◌>>=◌,
}
use server_unit.Base.Int.{ℤ}
use server_unit.Task.{JobStatus, job_done, job_pending, TaskPriority, medium_priority}
use server_unit.Json.{JsonLib}
use server_unit.Json.Schema.{SchemaLib, packet_schema}
use server_unit.Config.{Config}
use server_unit.Sql.{SqlLib}
use server_unit.Sink.{pop_object}
use server_unit.DataPacket.{DataType, new_data_packet, execute_data_packet}
use server_unit.Status.{ProcessStatusPacket, new_status_packet, packet_status_parse}
use server_unit.State.Statuses.{make_calls}
use server_unit.State.{Server, validator_task, add_pool_task}

pub record PacketValidator (J : JsonLib) : Type 0 where
  pub is_valid : Bool
  pub packet : J.Json

-- `init_validator`.
unfoldable pub init_validator : {J D : Type 0} → Server J D → Outcome (Server J D)
init_validator s = add_pool_task validator_task medium_priority s

abbrev pub pause_validator : JobStatus
pause_validator = job_pending

abbrev pub end_validator : JobStatus → JobStatus
end_validator status = job_done

-- `junk` is what the members of the packets hold before they are set, and `junk_priority` the
-- priority of the item that an empty sink gives.
module _ (L : SqlLib) (cfg : Config) (J : JsonLib) {D : Type 0} (S : SchemaLib J D)
    (stoi : String → Option ℤ) (junk : DataType × ProcessStatusPacket D)
    (junk_priority : TaskPriority) where
  open L use {Db}
  open J use {Json, at}
  open S use {validate}

  unfoldable pub validate_packet : PacketValidator J → PacketValidator J
  validate_packet v = record v { is_valid = validate packet_schema (at v.packet "body") }

  -- The packet as data, if it is a data packet.
  unfoldable pub process_data :
      PacketValidator J → Db → Server Json D → Outcome (Db × Server Json D)
  process_data v db s =
      let process = (do p ← new_data_packet J junk.0 v.packet; execute_data_packet L cfg p db s) in
      if v.is_valid then process else done (db, s)

  -- A packet that was popped. `packetStatusParse` reads nothing of the database, so the calls of
  -- `updateStatusInDb` that it makes are made on the database right behind it.
  unfoldable pub process_packet :
      Json → Db → Server Json D → Outcome (JobStatus × Db × Server Json D)
  unfolding validate_packet process_data
  process_packet packet db s = do
    r ← process_data (validate_packet (record { is_valid = Bool.false; packet = packet })) db s
    p ← new_status_packet J S junk.1 packet
    s' ← packet_status_parse J stoi p (record r.1 { database = [] })
    db' ← make_calls L cfg s'.database r.0
    done (job_pending, db', record s' { database = r.1.database ++ s'.database })

  unfoldable pub start_validator : Db → Server Json D → Outcome (JobStatus × Db × Server Json D)
  unfolding process_packet
  start_validator db s = do
    r ← pop_object s.receiver_sink junk_priority
    let s' : Server Json D = record s { receiver_sink = r.1 }
    elim r.0.data_object [
      | none ↦ done (job_done, db, s')
      | some packet ↦ process_packet packet db s'
    ]
