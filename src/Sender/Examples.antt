-- ===== src/Sender/Examples.antt =====
-- Workers whose times are natural numbers in place of `double`.
use server_unit.Base.{
  ℕ, ◌+◌, ◌*◌, ◌/◌, ◌≡◌, ◌⊎◌, inl, inr, refl, true, false, not, ◌&&◌, ◌==◌, leb, none, some, List,
  [], ◌∷◌, arith, All, fault, if◌then◌else◌, Returns,
}
use server_unit.Base.Int.{ℤ, pos, negsuc}
use server_unit.Task.{low_priority, init_flag, data_queued}
use server_unit.Double.{DoubleLib}
use server_unit.Worker.{Worker, new_worker}
use server_unit.Registry.{Entry}
use server_unit.Sender.Ideal.{Best, best_worker, is_candidate, worker_points, avg_time}
use server_unit.Sender.Best.{Beaten, IsFrom, best_worker-AtMost}
use server_unit.Pool.{new_task_pool}
use server_unit.Sink.{SinkItem, new_item, new_sink}
use server_unit.Timeout.{new_timeout}
use server_unit.Templates.{new_templates}
use server_unit.Instances.{new_instances}
use server_unit.Json.Concrete.{Value, nothing, text, number, values}
use server_unit.State.{UserDataTable, Server}
use server_unit.Sender.Packets.{set_in_body}
use server_unit.Sender.Push.{start_sender_core}
use server_unit.Sender.Stuck.{start_sender_core-fault}

abbrev pub magnitude : ℤ → ℕ
magnitude (pos n) = n
magnitude (negsuc n) = n + 1

pub leb_total : (a b : ℕ) → (leb a b ≡ true) ⊎ (leb b a ≡ true)
leb_total a b = ground arith

pub leb_trans : (a b c : ℕ) → leb a b ≡ true → leb b c ≡ true → leb a c ≡ true
leb_trans a b c h k = ground arith

pub ==_lem : (a b : ℕ) → (a == b) ≡ (leb a b && leb b a)
==_lem a b = ground arith

abbrev pub natural_times : DoubleLib
natural_times = record {
  Double = ℕ;
  zero_double = 0;
  add = ◌+◌;
  mul_int = λ a n. a * magnitude n;
  div_int = λ a n. a / magnitude n;
  is_nonzero = λ a. not (a == 0);
  leq = leb;
  eq = ◌==◌;
  is_nan = λ a. false;
  leq_total = λ a b p q. leb_total a b;
  leq_trans = leb_trans;
  eq_lem = ==_lem;
}

abbrev pub ready : ℕ → Worker ℕ
ready time = record (new_worker 0 "5") {
  worker_ready = init_flag true;
  worker_stats = record {
    total_avilable_threads = pos 2;
    task_queue = pos 1 ∷ pos 0 ∷ pos 2 ∷ pos 1 ∷ [];
    avg_queue_time = time;
  };
}

abbrev workers : List (Entry ℕ)
workers =
    record { address = 1; worker = ready 30 }
    ∷ record { address = 2; worker = new_worker 0 "6" }
    ∷ record { address = 3; worker = ready 10 }
    ∷ []

best_worker-AtMost_example :
    Returns
      (λ r.
        ((r ≡ none) × All (λ e. is_candidate natural_times e.worker ≡ false) workers)
        ⊎ ((b : Best natural_times) × (r ≡ some b)
            × All (Beaten natural_times low_priority b) workers
            × IsFrom natural_times low_priority workers b))
      (best_worker natural_times low_priority none workers)
unfolding worker_points avg_time is_candidate
best_worker-AtMost_example =
    best_worker-AtMost natural_times low_priority workers
      (inr (60, refl, refl), (inl refl, (inr (20, refl, refl), tt)))

-- A server that has data `u` to send to the worker behind 3, which is ready.
abbrev pub user_data : UserDataTable
user_data = record {
  user_table = "u";
  priority = low_priority;
  instance_name = "t";
  content = some "1,2";
}

abbrev pub top : SinkItem UserDataTable
top = new_item user_data low_priority 0

abbrev pub server : Server Value ℕ
server = record {
  next_address = 50;
  memory = λ p. (false, 0);
  packets = λ p. none;
  outgoing = record {
    out_data_registry_list = 40 ∷ [];
    states = λ p.
        if p == 40 then some (record { id = "u"; task_status = data_queued; worker = 0 }) else none;
  };
  registry = record {
    current_worker_list =
        record { address = 2; worker = new_worker 0 "6" }
        ∷ record { address = 3; worker = ready 10 }
        ∷ [];
    dead_worker_list = [];
    new_worker_flag = init_flag false;
  };
  templates = new_templates;
  instances = new_instances;
  timeout = new_timeout;
  new_worker_list = [];
  pending_packets_list = [];
  sender_sink = record { sink_item_list = top ∷ []; sink_lock = 1; sink_limit = 20 };
  receiver_sink = new_sink 20;
  task_pool = new_task_pool;
  database = [];
  reachable = true;
  files = [];
}

abbrev pub user_packet : Value
user_packet =
    set_in_body values
      (set_in_body values
        (set_in_body values (set_in_body values nothing "tableid" (text "u")) "priority"
          (number (pos 3)))
        "instancetype" (text "t"))
      "data" (text "1,2")

-- The same server with the packets 7 and 8 to hand over, and only a worker that is not ready.
abbrev abandoned : Server Value ℕ
abandoned = record server {
  pending_packets_list = 7 ∷ 8 ∷ [];
  registry = record server.registry {
    current_worker_list = record { address = 2; worker = new_worker 0 "6" } ∷ [];
  };
}

start_sender_core-fault_example : start_sender_core values natural_times abandoned ≡ fault
unfolding is_candidate new_templates new_instances new_timeout new_sink
start_sender_core-fault_example =
    start_sender_core-fault values natural_times abandoned 7 (8 ∷ []) refl (refl, tt)
