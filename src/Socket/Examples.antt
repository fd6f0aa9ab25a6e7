-- ===== src/Socket/Examples.antt =====
-- Messages of the worker behind 3 and of an unknown one.
use mathlib.Core.List.{Nodup, Nodup-nil}
use server_unit.Base.{
  ℕ, ◌≡◌, refl, true, false, Option, none, some, [], ◌∷◌, String, str_eq, if◌then◌else◌, ◌==◌,
  arith, done, update,
}
use server_unit.Base.Int.{pos}
use server_unit.Task.{sp_handshake}
use server_unit.Json.{create}
use server_unit.Json.Concrete.{Value, empty, values, schemas}
use server_unit.Worker.{Worker, new_packet}
use server_unit.Registry.{to_string, get_worker_from_uid, find_uid, find_worker, has_uid}
use server_unit.Registry.Identity.{IsUnused, all_uids}
use server_unit.State.{Server, with_worker}
use server_unit.Sink.{new_sink}
use server_unit.Sink.Order.{HasRoom}
use server_unit.Worker.Delivery.{IsIdle}
use server_unit.Pool.{new_task_pool}
use server_unit.Sender.Examples.{server, ready}
use server_unit.Status.Examples.{result_packet}
use server_unit.Socket.{wait_for_packet}
use server_unit.Socket.Waiting.{Stands, Stands-with_worker, now, later, wait_for_packet-endless}
use server_unit.Socket.Receive.{Received, PoolHasRoom, in_mode}
use server_unit.Socket.Messages.{IsMessage, reply, on_read-greets, on_read-quick, on_read-answers}

-- Two texts that parse: the result of the worker with the identifier 5, with and without the
-- quick-send bit.
abbrev parse : String → Option Value
parse text =
    if str_eq text "quick"
    then some (result_packet 80)
    else if str_eq text "slow"
    then some (result_packet 16)
    else none

abbrev draws : ℕ → ℕ
draws k = 77

-- The other threads do nothing.
abbrev quiet : ℕ → Server Value ℕ → Server Value ℕ
quiet k s = s

is_quick : IsMessage values schemas parse "quick" "5" (result_packet 80)
is_quick = record { parsed = refl; valid = refl; present = refl; named = refl }

is_slow : IsMessage values schemas parse "slow" "5" (result_packet 16)
is_slow = record { parsed = refl; valid = refl; present = refl; named = refl }

-- The worker and the server, with a free worker.
found : get_worker_from_uid "5" server.registry ≡ some 3
unfolding get_worker_from_uid find_uid
found = refl

stands : Stands 3 (ready 10) server
unfolding find_worker
stands = refl

receives : HasRoom server.receiver_sink
unfolding new_sink
receives = record { free = refl; below = omega arith }

takes : PoolHasRoom server.task_pool
unfolding new_task_pool
takes = (refl, omega arith)

idle : IsIdle (ready 10)
idle = record { free = refl; fresh = refl }

on_read-quick_example :
    (s' : Server Value ℕ) × Received (result_packet 80) 3 (in_mode true (ready 10)) server s'
    × (reply values schemas parse draws 0 quiet "quick" server 1
        ≡ done (
            some
              (create values sp_handshake "5" empty, with_worker 3 (in_mode true (ready 10)) s')))
on_read-quick_example =
    on_read-quick values schemas parse draws 0 quiet "quick" server 3 (pos 80) "5"
      (result_packet 80) (ready 10) is_quick found stands refl receives takes idle refl 0 refl
      (λ t h. h)

-- Another thread queues the packet at 60 for the worker before the second poll.
abbrev queued : Worker ℕ
queued = record (in_mode false (ready 10)) { sender_queue = 60 ∷ [] }

abbrev sending : ℕ → Server Value ℕ → Server Value ℕ
sending k s =
    if k == 1
    then record (with_worker 3 queued s) {
      packets = update s.packets 60 (some (new_packet (result_packet 2) 40 false));
      timeout = record s.timeout { timeout_list_lock = 1 };
    }
    else s

on_read-answers_example :
    (s' t : Server Value ℕ) × Received (result_packet 16) 3 (in_mode false (ready 10)) server s'
    × (reply values schemas parse draws 0 sending "slow" server 5
        ≡ done (some (result_packet 2, t)))
on_read-answers_example =
    on_read-answers values schemas parse draws 0 sending "slow" server 3 (pos 16) "5"
      (result_packet 16) (ready 10) is_slow found stands refl receives takes idle refl 5 1
      (result_packet 2) refl (omega arith) refl
      (later (λ t h. h)
        (now (λ t h. (
          60,
          [],
          new_packet (result_packet 2) 40 false,
          Stands-with_worker 3 (in_mode false (ready 10)) queued t h,
          refl,
          refl,
          refl,
        ))))
      (omega arith)

wait_for_packet-endless_example :
    wait_for_packet values schemas parse 100 quiet 0 3 server ≡ done none
wait_for_packet-endless_example =
    wait_for_packet-endless values schemas parse quiet 3 (ready 10) 100 0 server stands idle refl
      refl (λ k t h. h)

-- A server without workers.
abbrev empty_server : Server Value ℕ
empty_server = record server { registry = record server.registry { current_worker_list = [] } }

nobody : get_worker_from_uid "5" empty_server.registry ≡ none
unfolding get_worker_from_uid find_uid
nobody = refl

unused : IsUnused (to_string 77) empty_server.registry
unfolding has_uid
unused = record { not_current = refl; not_dead = refl }

on_read-greets_example :
    (s' : Server Value ℕ) × (reply values schemas parse draws 0 quiet "slow" empty_server 1
      ≡ done (some (create values sp_handshake (to_string 77) empty, s')))
    × (get_worker_from_uid (to_string 77) s'.registry ≡ some 50)
    × (s'.new_worker_list ≡ to_string 77 ∷ [])
    × Nodup (all_uids s'.registry)
on_read-greets_example =
    on_read-greets values schemas parse draws 0 quiet "slow" empty_server 0 "5" (result_packet 16)
      is_slow nobody unused Nodup-nil
