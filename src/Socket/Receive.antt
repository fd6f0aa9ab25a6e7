-- ===== src/Socket/Receive.antt =====
-- What the packet of a known worker changes before its session waits.
use mathlib.Core.List.{Perm}
use server_unit.Base.{
  ℕ, ◌+◌, ◌<◌, ◌≡◌, refl, Bool, true, false, Option, some, List, [], ◌∷◌, ◌++◌, String, arith,
  if◌then◌else◌, done,
}
use server_unit.Base.Int.{ℤ}
use server_unit.Task.{low_priority, medium_priority, init_flag}
use server_unit.Json.{JsonLib}
use server_unit.Json.Schema.{SchemaLib}
use server_unit.Sink.{SinkItem, new_item}
use server_unit.Sink.Order.{HasRoom, push_object-perm}
use server_unit.Pool.{TaskPool, TaskPoolNode, add_task}
use server_unit.Pool.Queue.{link_tail-append}
use server_unit.Worker.{Worker, set_quick_send_mode, reset_quick_send_mode}
use server_unit.Status.{int_has_bit}
use server_unit.State.{Server, Task, validator_task, with_worker, push_receiver, add_pool_task}
use server_unit.Validator.{init_validator}
use server_unit.Socket.{JsonPrevalidator, check_quick_send_bit, receive_known}
use server_unit.Socket.Waiting.{Stands, worker_at-Stands}

-- The task pool takes tasks.
abbrev pub PoolHasRoom : TaskPool Task → Type 0
PoolHasRoom p = (p.task_pool_lock ≡ 1) × (p.task_pool_count < 20)

abbrev pub validator_node : TaskPoolNode Task
validator_node = record { task_item = some validator_task; task_type = medium_priority }

-- The worker after the test of the quick-send bit.
abbrev pub in_mode : {D : Type 0} → Bool → Worker D → Worker D
in_mode quick w = record w { quick_send_mode = init_flag quick }

-- What the message with the packet makes of the server `s`, when the session of the worker behind
-- `a` starts to wait: the packet is in the receiver sink, and a validator behind all other tasks.
abbrev pub Received : {J D : Type 0} → J → ℕ → Worker D → Server J D → Server J D → Type 0
Received packet a w s s' =
    Stands a w s'
    × Perm s'.receiver_sink.sink_item_list
        (new_item packet low_priority (s.memory s.next_address).1 ∷ s.receiver_sink.sink_item_list)
    × (s'.task_pool.head_node ≡ s.task_pool.head_node ++ validator_node ∷ [])

-- The server after the message: the packet is one of the items of the sink, and a validator
-- waits behind all other tasks.
abbrev pub queued : {J D : Type 0} → ℕ → Worker D → List (SinkItem J) → Server J D → Server J D
queued a w items s = record (with_worker a w s) {
  receiver_sink = record s.receiver_sink { sink_item_list = items };
  next_address = s.next_address + 1;
  task_pool = record s.task_pool {
    head_node = s.task_pool.head_node ++ validator_node ∷ [];
    task_pool_count = s.task_pool.task_pool_count + 1;
  };
}

module _ (J : JsonLib) {D : Type 0} (S : SchemaLib J D) (parse : String → Option J.Json) where
  open J use {Json, object, is_empty, at, get_string, get_int}

  mode_lem :
      (quick : Bool) (w : Worker D)
      → (if quick then set_quick_send_mode w else reset_quick_send_mode w) ≡ in_mode quick w
  unfolding reset_quick_send_mode
  mode_lem true w = refl
  mode_lem false w = ground arith

  init_validator-eq :
      (s : Server Json D)
      → PoolHasRoom s.task_pool
      → init_validator s
        ≡ done (record s {
          task_pool = record s.task_pool {
            head_node = s.task_pool.head_node ++ validator_node ∷ [];
            task_pool_count = s.task_pool.task_pool_count + 1;
          };
        })
  unfolding init_validator add_pool_task add_task
  init_validator-eq s (free, below) =
      ground (arith, link_tail-append validator_node s.task_pool.head_node)

  pub receive_known-eq :
      (a : ℕ) (n : ℤ) (v : JsonPrevalidator J) (w : Worker D) (s : Server Json D)
      → get_int (at v.packet "head") ≡ some n
      → Stands a w s
      → HasRoom s.receiver_sink
      → PoolHasRoom s.task_pool
      → (items : List (SinkItem Json)) × (receive_known J S parse a v s
          ≡ done (queued a (in_mode (int_has_bit 6 n) w) items s))
        × Perm items (
            new_item v.packet low_priority (s.memory s.next_address).1
            ∷ s.receiver_sink.sink_item_list)
  unfolding receive_known check_quick_send_bit push_receiver with_worker
  receive_known-eq a n v w s code st room pool =
      let (items, pushed, perm) =
        push_object-perm s.receiver_sink v.packet low_priority (s.memory s.next_address).1 room in
      (
        items,
        rw code (
            rw (worker_at-Stands a w s st) (
              rw (mode_lem (int_has_bit 6 n) w) (
                rw pushed (
                  init_validator-eq
                    (record (with_worker a (in_mode (int_has_bit 6 n) w) s) {
                      receiver_sink = record s.receiver_sink { sink_item_list = items };
                      next_address = s.next_address + 1;
                    })
                    pool)))),
        perm,
      )
