-- ===== src/Task.antt =====
-- The enumerations of include/task.hpp and include/packet.hpp, the pair of functions that makes a
-- job (include/process.hpp) and the atomic flag of include/flag.h.
use server_unit.Base.{ℕ, Bool, true, false, Option}

pub data JobStatus : Type 0 where
  job_done job_pending job_failed job_finished : JobStatus

-- DEFAULT_PRIORITY is LOW_PRIORITY.
pub data TaskPriority : Type 0 where
  non_preemtable high_priority medium_priority low_priority : TaskPriority

-- The value of the enumerator.
abbrev pub priority_code : TaskPriority → ℕ
priority_code non_preemtable = 0
priority_code high_priority = 1
priority_code medium_priority = 2
priority_code low_priority = 3

pub data UserTaskStatus : Type 0 where
  data_queued data_ready data_sent data_inter data_final data_error : UserTaskStatus

abbrev pub status_code : UserTaskStatus → ℕ
status_code data_queued = 0
status_code data_ready = 1
status_code data_sent = 2
status_code data_inter = 3
status_code data_final = 4
status_code data_error = 5

-- What a worker writes into the head of a packet: one bit each.
pub data ComputeUnitPacketStatus : Type 0 where
  p_reset p_handshake p_data_ack p_intr_res p_final_res p_err p_qsend p_seize :
      ComputeUnitPacketStatus

abbrev pub unit_code : ComputeUnitPacketStatus → ℕ
unit_code p_reset = 1
unit_code p_handshake = 2
unit_code p_data_ack = 4
unit_code p_intr_res = 8
unit_code p_final_res = 16
unit_code p_err = 32
unit_code p_qsend = 64
unit_code p_seize = 128

-- What the server writes into it.
pub data ServerPacketCodes : Type 0 where
  sp_handshake sp_data_sent sp_intr_ack sp_fres_ack sp_err sp_ignore : ServerPacketCodes

abbrev pub server_code : ServerPacketCodes → ℕ
server_code sp_handshake = 1
server_code sp_data_sent = 2
server_code sp_intr_ack = 4
server_code sp_fres_ack = 8
server_code sp_err = 16
server_code sp_ignore = 32

-- `Flag`: an atomic Boolean. `init_flag` has the default `true`.
pub record Flag : Type 0 where
  pub flag : Bool

abbrev pub init_flag : Bool → Flag
init_flag state = record { flag = state }

abbrev pub set_flag : Flag → Flag
set_flag f = record f { flag = true }

abbrev pub reset_flag : Flag → Flag
reset_flag f = record f { flag = false }

abbrev pub is_flag_set : Flag → Bool
is_flag_set f = f.flag

-- `struct process`: what a job does, over a type `S` that stands for all that its functions reach.
-- The pause function may be NULL.
pub record Process (S : Type 0) : Type 0 where
  pub start_proc : S → JobStatus × S
  pub pause_proc : Option (S → JobStatus × S)
  pub end_proc : JobStatus → S → JobStatus × S
