-- ===== src/Expiry/Examples.antt =====
-- A server with one timed packet, of the worker behind 3.
use server_unit.Base.{
  ℕ, ◌≡◌, refl, Bool, true, false, none, some, [], ◌∷◌, ◌==◌, if◌then◌else◌, blocked, Returns,
  WhenDone,
}
use server_unit.Task.{init_flag, UserTaskStatus, data_sent, data_final}
use server_unit.Sink.{new_sink}
use server_unit.Timeout.{new_timeout}
use server_unit.Templates.{new_templates}
use server_unit.Instances.{new_instances}
use server_unit.Worker.{OutPacket, OutgoingDataState, Worker, new_worker}
use server_unit.Json.Concrete.{Value, empty}
use server_unit.State.{Server}
use server_unit.Sender.Examples.{server}
use server_unit.Expiry.{execute}
use server_unit.Expiry.Attended.{KeepsWorkers, execute-KeepsWorkers}
use server_unit.Expiry.Rounds.{execute-checks_out}
use server_unit.Expiry.Locked.{execute-blocked}

abbrev packet_of : Bool → OutPacket Value
packet_of checked_in = record {
  out_data = 40;
  ackable = true;
  status = init_flag checked_in;
  packet = empty;
}

abbrev data_of : UserTaskStatus → OutgoingDataState
data_of status = record { id = "u"; task_status = status; worker = 3 }

abbrev away : Worker ℕ
away = record (new_worker 0 "5") {
  attendance = init_flag false;
  ack_pending_queue = 50 ∷ [];
  sender_queue = 51 ∷ [];
}

-- Whether the packet 50 is checked in, and the status of its data.
abbrev timed : Bool → UserTaskStatus → Server Value ℕ
timed checked_in status = record server {
  packets = λ p. if p == 50 then some (packet_of checked_in) else none;
  outgoing = record {
    out_data_registry_list = 40 ∷ [];
    states = λ p. if p == 40 then some (data_of status) else none;
  };
  timeout = record {
    timedout_worker_registry = 3 ∷ [];
    timed_packets = 50 ∷ [];
    timeout_list_lock = 1;
  };
  registry = record {
    current_worker_list = record { address = 3; worker = away } ∷ [];
    dead_worker_list = [];
    new_worker_flag = init_flag false;
  };
}

execute-blocked_example : execute (timed true data_final) ≡ blocked
unfolding new_templates new_instances new_timeout new_sink
execute-blocked_example =
    execute-blocked (timed true data_final) 50 [] (packet_of true) (data_of data_final)
      (record { timed = refl; live = refl; known = refl; free = refl }) refl refl

abbrev two_seen : Server Value ℕ
two_seen = record (timed true data_sent) {
  packets = λ p.
      if p == 50 then some (packet_of true) else if p == 51 then some (packet_of true) else none;
  timeout = record {
    timedout_worker_registry = [];
    timed_packets = 50 ∷ 51 ∷ [];
    timeout_list_lock = 1;
  };
}

execute-checks_out_example :
    Returns
      (λ s'.
        (s'.packets 51 ≡ some (packet_of false))
        × (s'.timeout ≡ two_seen.timeout)
        × (s'.registry ≡ two_seen.registry)
        × (s'.outgoing ≡ two_seen.outgoing))
      (execute two_seen)
execute-checks_out_example =
    execute-checks_out two_seen 51
      (
        (packet_of true, data_of data_sent, refl, refl, refl, refl),
        ((packet_of true, data_of data_sent, refl, refl, refl, refl), tt),
      )
      (refl, (refl, tt)) refl

-- The packet is late, and its worker present.
abbrev late : Server Value ℕ
late = record (timed false data_sent) {
  registry = record {
    current_worker_list =
        record { address = 3; worker = record away { attendance = init_flag true } } ∷ [];
    dead_worker_list = [];
    new_worker_flag = init_flag false;
  };
}

execute-KeepsWorkers_example : WhenDone (KeepsWorkers late) (execute late)
execute-KeepsWorkers_example = execute-KeepsWorkers late (refl, tt)
