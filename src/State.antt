-- ===== src/State.antt =====
-- The objects that main.cpp creates and all parts of the server share, and the calls on them that
-- several parts make. `J` is the type of JSON values and `D` the type `double`.
pub mod Tracked
pub mod Statuses
pub mod Agreement
mod Examples
use mathlib.Core.Option
use server_unit.Base.{
  ℕ, ◌+◌, Bool, Option, none, some, List, [], ◌∷◌, ◌++◌, String, Outcome, done, fault, ◌>>=◌, Heap,
  update,
}
use server_unit.Task.{TaskPriority, UserTaskStatus}
use server_unit.Sink.{Sink, push_object}
use server_unit.Pool.{TaskPool, add_task}
use server_unit.Timeout.{Timeout}
use server_unit.Worker.{Worker, OutPacket, new_packet, queue_packet}
use server_unit.Registry.{WorkerRegistry, find_worker, put_worker}
use server_unit.Outgoing
use server_unit.Outgoing.{OutgoingRegistry}
use server_unit.Templates.{UserDataTemplate}
use server_unit.Instances.{WorkerInstanceList}

-- `UserDataTable` of sender_unit/user_data.hpp; the text is NULL when its file is missing.
pub record UserDataTable : Type 0 where
  pub user_table : String
  pub priority : TaskPriority
  pub instance_name : String
  pub content : Option String

-- The constructor assigns the member of the table to itself: it stays the empty text, whatever name
-- was given.
abbrev pub new_user_data_table : String → TaskPriority → String → Option String → UserDataTable
new_user_data_table table priority instance_name content = record {
  user_table = "";
  priority = priority;
  instance_name = instance_name;
  content = content;
}

-- A `taskStruct` in the task pool: the sender core or a packet validator.
pub data Task : Type 0 where
  sender_core_task validator_task : Task

-- `next_address` is where the next object is allocated. `memory` is what stands in memory that the
-- code reads without having written it, at each address. `database` is the texts that
-- `updateStatusInDb` was called with, each with its identifier, and `reachable` whether the database
-- takes connections. `files` is the texts that were written to files, each after its path.
pub record Server (J D : Type 0) : Type 0 where
  pub next_address : ℕ
  pub memory : ℕ → Bool × ℕ
  pub packets : Heap (OutPacket J)
  pub outgoing : OutgoingRegistry
  pub registry : WorkerRegistry D
  pub templates : UserDataTemplate J
  pub instances : WorkerInstanceList
  pub timeout : Timeout
  pub new_worker_list : List String
  pub pending_packets_list : List ℕ
  pub sender_sink : Sink UserDataTable
  pub receiver_sink : Sink J
  pub task_pool : TaskPool Task
  pub database : List (String × String)
  pub reachable : Bool
  pub files : List (String × String)

module _ {J D : Type 0} where
  -- The worker behind a pointer.
  unfoldable pub worker_at : ℕ → Server J D → Outcome (Worker D)
  worker_at address s = elim (find_worker address s.registry.current_worker_list) [
    | none ↦ fault
    | some w ↦ done w
  ]

  -- The server after a write to the worker behind a pointer.
  unfoldable pub with_worker : ℕ → Worker D → Server J D → Server J D
  with_worker address w s = record s {
    registry = record s.registry {
      current_worker_list = put_worker address w s.registry.current_worker_list;
    };
  }

  -- `worker->queuePacket(new OutPacket(packet, outData, ackable))`; what it returns is not used.
  unfoldable pub queue_new : ℕ → J → ℕ → Bool → Server J D → Outcome (Server J D)
  unfolding worker_at with_worker
  queue_new address packet out_data ackable s = do
    w ← worker_at address s
    r ← queue_packet s.next_address w
    done (
        with_worker address r.1 (record s {
          next_address = s.next_address + 1;
          packets = update s.packets s.next_address (some (new_packet packet out_data ackable));
        }))

  -- The address of the data, 0 for NULL.
  unfoldable pub registry_from_id : String → Server J D → Outcome ℕ
  registry_from_id id s = do
    found ← Outgoing.get_registry_from_id id s.outgoing
    done (Option.get_or found 0)

  -- A call of `updateStatusInDb`, which is a fault while the database cannot be reached, goes behind
  -- those made before; as the call reads nothing that the server sees, the statement itself is made
  -- by `make_calls` of State/Statuses.
  unfoldable pub update_task_status : String → UserTaskStatus → Server J D → Outcome (Server J D)
  update_task_status id status s = do
    u ← Outgoing.update_task_status s.reachable id status s.outgoing
    let database : List (String × String) = elim u.written [
      | none ↦ s.database
      | some text ↦ s.database ++ (text, id) ∷ []
    ]
    done (record s { outgoing = u.registry; database = database })

  unfoldable pub assign_worker : String → ℕ → Server J D → Outcome (Server J D)
  assign_worker id address s = do
    r ← Outgoing.assign_worker id address s.outgoing
    done (record s { outgoing = r.1 })

  -- `globalOutgoingDataRegistry.add(id, worker)`: the state stands at the next address.
  unfoldable pub add_outgoing : String → Option ℕ → Server J D → Outcome (Server J D)
  add_outgoing id address s = do
    let (flag, junk) = s.memory s.next_address
    r ← Outgoing.add s.next_address flag junk id address s.outgoing
    done (record s { outgoing = r; next_address = s.next_address + 1 })

  -- `globalTaskPool->addTask(new taskStruct(…), priority)`; what it returns is not used.
  unfoldable pub add_pool_task : Task → TaskPriority → Server J D → Outcome (Server J D)
  add_pool_task task priority s = do
    r ← add_task s.task_pool task priority
    done (record s { task_pool = r.1 })

  -- `globalSenderSink->pushObject`, whose result is not used; the new item stands at the next
  -- address.
  unfoldable pub push_sender : UserDataTable → TaskPriority → Server J D → Outcome (Server J D)
  push_sender u priority s = do
    r ← push_object s.sender_sink (some u) priority (s.memory s.next_address).1
    done (record s { sender_sink = r.1; next_address = s.next_address + 1 })

  -- `globalReceiverSink->pushObject`.
  unfoldable pub push_receiver : J → TaskPriority → Server J D → Outcome (Server J D)
  push_receiver packet priority s = do
    r ← push_object s.receiver_sink (some packet) priority (s.memory s.next_address).1
    done (record s { receiver_sink = r.1; next_address = s.next_address + 1 })
