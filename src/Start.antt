-- ===== src/Start.antt =====
-- What main.cpp makes before it opens the socket, and the first message to it. The members of a
-- global object that no constructor sets are zero.
mod Examples
pub mod Program
use mathlib.Core.List.{Nodup, Nodup-nil}
use server_unit.Base.{
  ℕ, zero, suc, ◌≡◌, refl, ap, sym, subst, map, ◌∙◌, true, false, none, some, Bool, Option, List,
  [], ◌∷◌, ◌++◌, String, arith, Outcome, done, ◌>>=◌,
}
use server_unit.Task.{low_priority, sp_handshake, init_flag}
use server_unit.Json.{JsonLib, create}
use server_unit.Json.Schema.{SchemaLib}
use server_unit.Sink.{new_sink}
use server_unit.Sink.Order.{HasRoom}
use server_unit.Pool.{TaskPoolNode, new_task_pool, add_task, link_tail}
use server_unit.Registry.{
  WorkerRegistry, Entry, uid_of, current_uids, get_worker_from_uid, find_uid, to_string, has_uid,
}
use server_unit.Registry.Identity.{IsUnused, all_uids}
use server_unit.Timeout.{new_timeout}
use server_unit.Templates.{new_templates}
use server_unit.Instances.{new_instances}
use server_unit.State.{Server, Task, sender_core_task, add_pool_task}
use server_unit.Socket.Receive.{PoolHasRoom}
use server_unit.Socket.Messages.{IsMessage, reply, on_read-greets}

abbrev pub sender_node : TaskPoolNode Task
sender_node = record { task_item = some sender_core_task; task_type = low_priority }

module _ {J D : Type 0} where
  -- The global objects, on memory that holds `memory`; the first object stands at the
  -- address 1. `reachable` is whether the database takes connections.
  unfoldable pub new_server : Bool → (ℕ → Bool × ℕ) → Server J D
  unfolding new_sink new_task_pool new_templates new_instances new_timeout
  new_server reachable memory = record {
    next_address = 1;
    memory = memory;
    packets = λ p. none;
    outgoing = record { out_data_registry_list = []; states = λ p. none };
    registry = record {
      current_worker_list = [];
      dead_worker_list = [];
      new_worker_flag = init_flag false;
    };
    templates = new_templates;
    instances = new_instances;
    timeout = new_timeout;
    new_worker_list = [];
    pending_packets_list = [];
    sender_sink = new_sink 20;
    receiver_sink = new_sink 20;
    task_pool = new_task_pool;
    database = [];
    reachable = reachable;
    files = [];
  }

  -- `SenderCore::run` of sender_unit/sender_core.cpp.
  unfoldable pub run_sender_core : Server J D → Outcome (Server J D)
  unfolding add_pool_task
  run_sender_core s = add_pool_task sender_core_task low_priority s

  unfoldable pub start_server : Bool → (ℕ → Bool × ℕ) → Outcome (Server J D)
  unfolding new_server run_sender_core
  start_server reachable memory = run_sender_core (new_server reachable memory)

  -- The server is started: the sender core is the only task that waits, the sinks and the pool take
  -- what comes, and nobody is known.
  pub record IsStarted (s : Server J D) : Type 0 where
    pub waiting : s.task_pool.head_node ≡ sender_node ∷ []
    pub pool : PoolHasRoom s.task_pool
    pub sender : HasRoom s.sender_sink
    pub receiver : HasRoom s.receiver_sink
    pub nobody : s.registry.current_worker_list ≡ []
    pub nobody_gone : s.registry.dead_worker_list ≡ []
    pub nobody_new : s.new_worker_list ≡ []

  pub start_server-IsStarted :
      (reachable : Bool) (memory : ℕ → Bool × ℕ)
      → (s : Server J D) × (start_server reachable memory ≡ done s) × IsStarted s
  unfolding start_server add_task link_tail
  start_server-IsStarted reachable memory = (
    record (new_server reachable memory) {
      task_pool = record { task_pool_lock = 1; head_node = sender_node ∷ []; task_pool_count = 1 };
    },
    refl,
    record {
      waiting = refl;
      pool = (refl, omega arith);
      sender = record { free = refl; below = omega arith };
      receiver = record { free = refl; below = omega arith };
      nobody = refl;
      nobody_gone = refl;
      nobody_new = refl;
    },
  )

module _ {D : Type 0} where
  nobody_found :
      (uid : String) (r : WorkerRegistry D)
      → r.current_worker_list ≡ []
      → get_worker_from_uid uid r ≡ none
  unfolding get_worker_from_uid find_uid
  nobody_found uid r e = rw (e, get_worker_from_uid, find_uid) refl

  unused :
      (uid : String) (r : WorkerRegistry D)
      → r.current_worker_list ≡ []
      → r.dead_worker_list ≡ []
      → IsUnused uid r × Nodup (all_uids r)
  unfolding has_uid
  unused uid r e f = (
    record { not_current = ap (λ l. has_uid uid (map uid_of l)) e; not_dead = ap (has_uid uid) f },
    subst (λ (l : List String). Nodup (current_uids r ++ l)) (sym f)
        (subst (λ (l : List (Entry D)). Nodup (map uid_of l ++ [])) (sym e) Nodup-nil),
  )

module _ (J : JsonLib) {D : Type 0} (S : SchemaLib J D) (parse : String → Option J.Json) where
  -- The server starts, with the sender core as the only task that waits and room in the sinks and
  -- the pool. Whatever identifier the first valid message has, the reply is a handshake with the
  -- first number that is drawn, which is the identifier of the first worker from then on.
  pub start_server-greets :
      (reachable : Bool) (memory : ℕ → Bool × ℕ) (fuel : ℕ) (draws : ℕ → ℕ) (zero_time : D)
      (others : ℕ → Server J.Json D → Server J.Json D) (out uid : String) (packet : J.Json)
      → IsMessage J S parse out uid packet
      → (s s' : Server J.Json D) × (start_server reachable memory ≡ done s)
        × IsStarted s
        × (reply J S parse draws zero_time others out s (suc fuel)
            ≡ done (some (create J sp_handshake (to_string (draws 0)) J.object, s')))
        × (get_worker_from_uid (to_string (draws 0)) s'.registry ≡ some s.next_address)
        × (s'.new_worker_list ≡ to_string (draws 0) ∷ [])
  start_server-greets reachable memory fuel draws zero_time others out uid packet m =
      let (s, made, started) = start_server-IsStarted {J = J.Json} {D = D} reachable memory in
      let (fresh, distinct) =
        unused (to_string (draws 0)) s.registry started.nobody started.nobody_gone in
      let (s', replied, found, named, _) =
        on_read-greets J S parse draws zero_time others out s fuel uid packet m
          (nobody_found uid s.registry started.nobody) fresh distinct in
      (
        s,
        s',
        made,
        started,
        replied,
        found,
        named ∙ ap (λ (l : List String). l ++ to_string (draws 0) ∷ []) started.nobody_new,
      )
