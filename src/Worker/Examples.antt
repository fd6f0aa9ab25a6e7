-- ===== src/Worker/Examples.antt =====
-- Workers with concrete packets; a packet's JSON value is a number, 0 for the empty object.
use server_unit.Base.{
  ℕ, zero, suc, ◌+◌, ◌≡◌, refl, Bool, true, false, none, some, List, [], ◌∷◌, arith, ◌==◌,
  if◌then◌else◌, done, Heap,
}
use server_unit.Task.{init_flag}
use server_unit.Timeout.{Timeout}
use server_unit.Worker.{OutPacket, Worker, new_worker}
use server_unit.Worker.Send.{get_queued_packet}
use server_unit.Worker.Delivery.{get_queued_packet-next, get_queued_packet-lost}

-- Packets at even addresses need an acknowledgement; the data of a packet has its address.
abbrev is_even : ℕ → Bool
is_even zero = true
is_even (suc zero) = false
is_even (suc (suc n)) = is_even n

abbrev packets : Heap (OutPacket ℕ)
packets p =
    if p == 0
    then none
    else some
        (record { out_data = p; ackable = is_even p; status = init_flag true; packet = 100 + p })

abbrev timer : Timeout
timer = record {
  timedout_worker_registry = 9 ∷ [];
  timed_packets = 4 ∷ 6 ∷ [];
  timeout_list_lock = 1;
}

abbrev plain : Worker ℕ
plain = new_worker 0 "5"

-- A worker with fresh and unacknowledged packets.
abbrev with_queues : List ℕ → List ℕ → Worker ℕ
with_queues fresh pending = record plain { sender_queue = fresh; ack_pending_queue = pending }

get_queued_packet-next_example :
    get_queued_packet 0 packets (with_queues (2 ∷ 3 ∷ []) (4 ∷ 6 ∷ [])) timer
    ≡ done (
      102,
      with_queues (3 ∷ []) (4 ∷ 6 ∷ 2 ∷ []),
      record timer { timed_packets = 4 ∷ 6 ∷ 2 ∷ [] },
    )
get_queued_packet-next_example =
    get_queued_packet-next 0 packets (with_queues (2 ∷ 3 ∷ []) (4 ∷ 6 ∷ [])) timer 2 (3 ∷ [])
      (record { out_data = 2; ackable = true; status = init_flag true; packet = 102 })
      (record { free = refl; fresh = refl }) refl refl (omega arith) refl

abbrev eleven : List ℕ
eleven = 10 ∷ 12 ∷ 14 ∷ 16 ∷ 18 ∷ 20 ∷ 22 ∷ 24 ∷ 26 ∷ 28 ∷ 30 ∷ []

get_queued_packet-lost_example :
    get_queued_packet 0 packets (with_queues (2 ∷ 4 ∷ 3 ∷ 6 ∷ []) eleven) timer
    ≡ done (104, with_queues (2 ∷ 4 ∷ 6 ∷ []) eleven, timer)
get_queued_packet-lost_example =
    get_queued_packet-lost 0 packets (with_queues (2 ∷ 4 ∷ 3 ∷ 6 ∷ []) eleven) timer (2 ∷ []) 4 3
      (6 ∷ []) (record { out_data = 4; ackable = true; status = init_flag true; packet = 104 })
      (record { out_data = 3; ackable = false; status = init_flag true; packet = 103 })
      (record { free = refl; fresh = refl }) refl
      (
        (
          record { out_data = 2; ackable = true; status = init_flag true; packet = 102 },
          refl,
          refl,
        ),
        tt,
      )
      refl refl refl refl (omega arith)
