-- ===== src/Socket/DeliveryExamples.antt =====
-- User data for the worker with the identifier 5, which sends a result.
use server_unit.Base.{
  ℕ, ◌≡◌, refl, false, Option, none, some, [], ◌∷◌, ◌++◌, String, str_eq, if◌then◌else◌, arith,
  done, ◌>>=◌, inl, Returns, contains,
}
use server_unit.Base.Int.{pos}
use server_unit.Task.{data_queued, data_ready, sp_data_sent}
use server_unit.Json.{create}
use server_unit.Json.Concrete.{Value, values, schemas}
use server_unit.Sink.{new_sink}
use server_unit.Pool.{new_task_pool}
use server_unit.Registry.{get_worker_from_uid, find_uid, find_worker}
use server_unit.Outgoing.Status.{Tracks, later}
use server_unit.Timeout.{new_timeout}
use server_unit.State.{Server}
use server_unit.Sender.Ideal.{
  find_ideal_worker, best_worker, consider_worker, replaces, worker_points, avg_time, is_candidate,
}
use server_unit.Sender.Packets.{user_data_to_json}
use server_unit.Sender.Push.{push_user_data}
use server_unit.Sender.Examples.{server, ready, natural_times, top, user_data, user_packet}
use server_unit.Status.Examples.{packet, result_packet}
use server_unit.Socket.{on_read}
use server_unit.Socket.Waiting.{Stands}
use server_unit.Socket.Receive.{in_mode}
use server_unit.Worker.{OutgoingDataState}
use server_unit.Templates.{has_name, new_templates}
use server_unit.Status.{packet_status_parse}
use server_unit.Socket.Messages.{IsMessage}
use server_unit.Socket.Ready.{Ready}
use server_unit.Socket.Delivery.{push_user_data-replied, push_user_data-acknowledged}

abbrev parse : String → Option Value
parse text = if str_eq text "result" then some (result_packet 16) else none

abbrev queued : OutgoingDataState
queued = record { id = "u"; task_status = data_queued; worker = 0 }

server-Ready :
    Ready values natural_times "5" 3 40 top user_data [] user_packet (ready 10) queued server
unfolding find_worker find_ideal_worker best_worker consider_worker replaces worker_points avg_time
    is_candidate get_worker_from_uid find_uid user_data_to_json new_timeout new_sink new_task_pool
server-Ready = record {
  on_top = record { listed = refl; holds = refl; unlocked = refl };
  ideal = refl;
  text = refl;
  found = refl;
  idle = record { free = refl; fresh = refl };
  unqueued = refl;
  acks = omega arith;
  tracked = record {
    before = [];
    after = [];
    listed = refl;
    others = tt;
    held = refl;
    same_id = refl;
  };
  reachable = refl;
  known = refl;
  room = record { free = refl; below = omega arith };
  pool = (refl, omega arith);
  lock = refl;
}

is_message : IsMessage values schemas parse "result" "5" (result_packet 16)
is_message = record { parsed = refl; valid = refl; present = refl; named = refl }

abbrev delivered : OutgoingDataState
delivered = record { id = "u"; task_status = later data_queued data_ready; worker = 3 }

push_user_data-replied_example :
    (t : Server Value ℕ) × ((push_user_data values natural_times server
        >>= on_read values schemas parse 3 (λ k. 77) 0 (λ k v. v) "result")
      ≡ done (some (create values sp_data_sent "5" user_packet, t)))
    × Stands 3 (record (in_mode false (ready 10)) { ack_pending_queue = 50 ∷ [] }) t
    × (t.timeout.timed_packets ≡ server.timeout.timed_packets ++ 50 ∷ [])
    × Tracks t.outgoing "u" 40 delivered
push_user_data-replied_example =
    push_user_data-replied values natural_times schemas parse (λ k. 77) 0 (λ k v. v) (λ v. refl)
      "result" "5" (result_packet 16) (pos 16) is_message refl 2 3 40 top user_data [] user_packet
      (ready 10) queued server server-Ready

push_user_data-acknowledged_example :
    (t : Server Value ℕ) × ((push_user_data values natural_times server
        >>= on_read values schemas parse 3 (λ k. 77) 0 (λ k v. v) "result")
      ≡ done (some (create values sp_data_sent "5" user_packet, t)))
    × Returns
        (λ v.
          Stands 3
            (record (in_mode false (ready 10)) { sender_queue = []; ack_pending_queue = [] })
            v
          × (v.packets 50 ≡ none)
          × (contains 50 v.timeout.timed_packets ≡ false)
          × Tracks v.outgoing "u" 40 delivered)
        (packet_status_parse values
          (λ text. some (pos 1))
          (record packet { packet_code = pos 4 })
          t)
unfolding new_templates has_name
push_user_data-acknowledged_example =
    push_user_data-acknowledged values natural_times schemas parse (λ k. 77) 0 (λ k v. v)
      (λ v. refl) "result" "5" (result_packet 16) (pos 16) is_message refl (λ text. some (pos 1)) 2
      3 40 4 top user_data [] user_packet (ready 10) queued (record packet { packet_code = pos 4 })
      server server-Ready refl (omega arith) refl refl refl (inl refl) refl refl refl
