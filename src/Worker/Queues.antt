-- ===== src/Worker/Queues.antt =====
-- The bounds of the queues, the reported size and the way to re-send a packet.
use server_unit.Base.{
  ℕ, ◌+◌, ◌^◌, ◌≤◌, ◌<◌, ◌≡◌, ◌⊎◌, ◌↔◌, true, false, some, [], ◌∷◌, ◌++◌, arith, length,
  length-append, remove_all, done, Returns, Heap,
}
use server_unit.Base.Int.{int_of_size_t, gtb_ℤ}
use server_unit.Timeout.{Timeout}
use server_unit.Worker.{OutPacket, Worker, queue_packet, get_queue_size, push_to_front}
use server_unit.Worker.Send.{get_queued_packet}

module _ {D : Type 0} where
  -- On a worker whose lock is free and whose queue holds at most 21 packets, `queuePacket` returns,
  -- and the same holds after. It refuses with 1 exactly when 21 packets are queued, one more than
  -- the configured size, and changes nothing then; else it returns 0 and the packet is last.
  pub queue_packet-bounded :
      (packet : ℕ) (w : Worker D)
      → w.worker_lock ≡ 1
      → length w.sender_queue ≤ 21
      → Returns
          (λ r.
            (r.1.worker_lock ≡ 1)
            × (length r.1.sender_queue ≤ 21)
            × ((r.0 ≡ 1) × (length w.sender_queue ≡ 21) × (r.1 ≡ w)
                ⊎ (r.0 ≡ 0)
                  × (length w.sender_queue < 21)
                  × (r.1.sender_queue ≡ w.sender_queue ++ packet ∷ [])))
          (queue_packet packet w)
  unfolding queue_packet
  queue_packet-bounded packet w free h = ground (arith, length-append w.sender_queue (packet ∷ []))

  -- `getQueueSize` is the negated number of packets in both queues, as long as those are fewer
  -- than 2 ^ 31: a worker with more packets reports the smaller size.
  pub get_queue_size-gtb :
      (v w : Worker D)
      → length v.sender_queue + length v.ack_pending_queue < 2 ^ 31
      → length w.sender_queue + length w.ack_pending_queue < 2 ^ 31
      → (gtb_ℤ (get_queue_size v) (get_queue_size w) ≡ true) ↔ (
          length v.sender_queue + length v.ack_pending_queue
          < length w.sender_queue + length w.ack_pending_queue)
  unfolding get_queue_size int_of_size_t
  get_queue_size-gtb v w h k = ground arith

module _ {J D : Type 0} (empty_object : J) (packets : Heap (OutPacket J)) where
  -- A packet put to the front is what the next request gets, without touching the queue of fresh
  -- packets or the timer; it stays first among the unacknowledged, once, and the lock is free.
  pub get_queued_packet-push_to_front :
      (p : ℕ) (o : OutPacket J) (w : Worker D) (t : Timeout)
      → w.worker_lock ≡ 1
      → packets p ≡ some o
      → Returns
          (λ v.
            get_queued_packet empty_object packets v t
            ≡ done (
              o.packet,
              record w {
                ack_pending_queue = p ∷ remove_all p w.ack_pending_queue;
                ack_packet_pop = record { flag = false };
              },
              t,
            ))
          (push_to_front p w)
  unfolding push_to_front get_queued_packet
  get_queued_packet-push_to_front p o w t free e = ground arith
