-- ===== src/Worker.antt =====
-- worker_node/worker.cpp and worker_node/worker.hpp: a worker's two packet queues and its flags.
-- Packets and their states are objects on heaps, and the queues hold their addresses. `J` is the
-- type of JSON values and `empty_object` the value `json({})`; the JSON library is not modelled.
pub mod Send
pub mod Ack
pub mod Queues
pub mod Delivery
pub mod Acknowledged
mod Examples
use mathlib.Core.Option
use server_unit.Base.{
  ℕ, zero, suc, ◌+◌, ◌-◌, ◌*◌, ◌/◌, ◌%◌, ◌^◌, Bool, true, false, Option, none, some, List, [], ◌∷◌,
  ◌++◌, String, str_eq, length, remove_all, ltb, ◌==◌, if◌then◌else◌, Outcome, done, fault, ◌>>=◌,
  sem_wait, sem_post, Heap, load, update,
}
use server_unit.Base.Int.{ℤ, pos, int_of_size_t}
use server_unit.Task.{Flag, init_flag, set_flag, reset_flag, is_flag_set, UserTaskStatus}
use server_unit.Timeout.{Timeout, add_packet, pop_packet}

abbrev pub worker_queue_size : ℕ
worker_queue_size = 20

-- `OutgoingDataState` of packet_processor/outgoing_data_registry.hpp; `worker` is an address.
pub record OutgoingDataState : Type 0 where
  pub id : String
  pub task_status : UserTaskStatus
  pub worker : ℕ

module _ (J : Type 0) where
  pub record OutPacket : Type 0 where
    pub out_data : ℕ
    pub ackable : Bool
    pub status : Flag
    pub packet : J

-- `OutPacket::OutPacket`.
abbrev pub new_packet : {J : Type 0} → J → ℕ → Bool → OutPacket J
new_packet packet out_data ackable = record {
  out_data = out_data;
  ackable = ackable;
  status = init_flag true;
  packet = packet;
}

-- `WorkerStats`; `D` is the type `double`.
pub record WorkerStats (D : Type 0) : Type 0 where
  pub total_avilable_threads : ℤ
  pub task_queue : List ℤ
  pub avg_queue_time : D

pub record Worker (D : Type 0) : Type 0 where
  pub worker_uid : String
  pub sender_queue : List ℕ
  pub ack_pending_queue : List ℕ
  pub attendance : Flag
  pub ack_packet_pop : Flag
  pub quick_send_mode : Flag
  pub worker_ready : Flag
  pub worker_lock : ℕ
  pub worker_stats : WorkerStats D

module _ {D : Type 0} where
  -- `Worker::Worker(workerUID)`; `zero_time` is 0 as a `double`.
  abbrev pub new_worker : D → String → Worker D
  new_worker zero_time uid = record {
    worker_uid = uid;
    sender_queue = [];
    ack_pending_queue = [];
    attendance = init_flag true;
    ack_packet_pop = init_flag false;
    quick_send_mode = init_flag false;
    worker_ready = init_flag false;
    worker_lock = 1;
    worker_stats = record {
      total_avilable_threads = pos 0;
      task_queue = [];
      avg_queue_time = zero_time;
    };
  }

  abbrev pub check_in : Worker D → Worker D
  check_in w = record w { attendance = set_flag w.attendance }

  abbrev pub check_out : Worker D → Worker D
  check_out w = record w { attendance = reset_flag w.attendance }

  abbrev pub is_checked_in : Worker D → Bool
  is_checked_in w = is_flag_set w.attendance

  -- 1 when the queue is over its size, else 0.
  unfoldable pub queue_packet : ℕ → Worker D → Outcome (ℕ × Worker D)
  queue_packet packet w = if ltb worker_queue_size (length w.sender_queue) then done (1, w) else do
    lock ← sem_wait w.worker_lock
    done (0, record w { sender_queue = w.sender_queue ++ packet ∷ []; worker_lock = sem_post lock })

  -- `WORKER_QUEUE_SIZE * (1/2) - (…)`: the quotient of the integers is 0, and the difference is
  -- taken on `size_t`.
  unfoldable pub get_queue_size : Worker D → ℤ
  get_queue_size w = int_of_size_t (
      (worker_queue_size * (1 / 2) + 2 ^ 64 - (length w.sender_queue + length w.ack_pending_queue))
      % 2 ^ 64)

  unfoldable pub push_to_front : ℕ → Worker D → Outcome (Worker D)
  push_to_front packet w = do
    lock ← sem_wait w.worker_lock
    done (record w {
      ack_pending_queue = packet ∷ remove_all packet w.ack_pending_queue;
      ack_packet_pop = set_flag w.ack_packet_pop;
      worker_lock = sem_post lock;
    })

  -- `shutDown`: all packets, those that wait for an acknowledgement first. The lock is destroyed.
  unfoldable pub shut_down : Worker D → Outcome (List ℕ × Worker D)
  shut_down w = do
    lock ← sem_wait w.worker_lock
    done (w.ack_pending_queue ++ w.sender_queue, record w { worker_lock = sem_post lock })

  abbrev pub set_quick_send_mode : Worker D → Worker D
  set_quick_send_mode w = record w { quick_send_mode = set_flag w.quick_send_mode }

  unfoldable pub reset_quick_send_mode : Worker D → Worker D
  reset_quick_send_mode w =
      if is_flag_set w.quick_send_mode
      then record w { quick_send_mode = reset_flag w.quick_send_mode }
      else w

  abbrev pub set_worker_ready : Worker D → Worker D
  set_worker_ready w = record w { worker_ready = set_flag w.worker_ready }

  abbrev pub reset_worker_ready : Worker D → Worker D
  reset_worker_ready w = record w { worker_ready = reset_flag w.worker_ready }
