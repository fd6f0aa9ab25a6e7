-- ===== src/Worker/Delivery.antt =====
-- What a worker that asks for a packet gets.
use server_unit.Base.{
  ℕ, ◌≤◌, ◌<◌, ◌≡◌, ap, true, false, Option, none, some, List, [], ◌∷◌, ◌++◌, arith, length, All,
  if◌then◌else◌, done, Returns, Heap,
}
use server_unit.Timeout.{Timeout, add_packet}
use server_unit.Worker.{OutPacket, Worker}
use server_unit.Worker.Send.{skip_ackable, send_non_ackable, get_queued_packet}

module _ {J : Type 0} (packets : Heap (OutPacket J)) where
  -- The packet at the address needs an acknowledgement.
  abbrev pub NeedsAck : ℕ → Type 0
  NeedsAck p = (o : OutPacket J) × (packets p ≡ some o) × (o.ackable ≡ true)

  skip_ackable-found :
      (before : Option ℕ) (xs : List ℕ) (p q : ℕ) (rest : List ℕ) (o : OutPacket J)
      → All NeedsAck xs
      → NeedsAck p
      → packets q ≡ some o
      → o.ackable ≡ false
      → skip_ackable packets before (xs ++ p ∷ q ∷ rest) ≡ done (some (some p, xs ++ p ∷ rest))
  unfolding skip_ackable
  skip_ackable-found before [] p q rest o h (op, live, ack) liveq e = ground arith
  skip_ackable-found before (x ∷ xs) p q rest o ((ox, livex, ackx), h) n liveq e =
      ground (arith, skip_ackable-found (some x) xs p q rest o h n liveq e)

-- The worker can be served: its lock is free and nothing is to be sent again.
pub record IsIdle {D : Type 0} (w : Worker D) : Type 0 where
  pub free : w.worker_lock ≡ 1
  pub fresh : w.ack_packet_pop ≡ record { flag = false }

module _ {J D : Type 0} (empty_object : J) (packets : Heap (OutPacket J)) where
  -- A worker whose lock is free and re-send flag off, with a packet queued, at most ten others
  -- unacknowledged and the timer free, gets the oldest queued packet. If that needs an
  -- acknowledgement, it moves behind the unacknowledged ones and is timed; a packet that needs none
  -- leaves no trace.
  pub get_queued_packet-next :
      (w : Worker D) (t : Timeout) (p : ℕ) (rest : List ℕ) (o : OutPacket J)
      → IsIdle w
      → w.sender_queue ≡ p ∷ rest
      → packets p ≡ some o
      → length w.ack_pending_queue ≤ 10
      → t.timeout_list_lock ≡ 1
      → get_queued_packet empty_object packets w t
        ≡ done (
          o.packet,
          record w {
            sender_queue = rest;
            ack_pending_queue =
                if o.ackable then w.ack_pending_queue ++ p ∷ [] else w.ack_pending_queue;
          },
          (if o.ackable then record t { timed_packets = t.timed_packets ++ p ∷ [] } else t),
        )
  unfolding get_queued_packet add_packet
  get_queued_packet-next w t p rest o i e live room timer = ground (arith, i.free, i.fresh)

  -- With the worker's lock free and its re-send flag off, more than ten packets unacknowledged, and
  -- the packet `q` the first that needs no acknowledgement but not the first queued, the worker gets the packet `p` queued before `q`, which stays queued, and `q`
  -- is erased: nobody ever gets it.
  pub get_queued_packet-lost :
      (w : Worker D) (t : Timeout) (xs : List ℕ) (p q : ℕ) (rest : List ℕ) (op oq : OutPacket J)
      → IsIdle w
      → w.sender_queue ≡ xs ++ p ∷ q ∷ rest
      → All (NeedsAck packets) xs
      → packets p ≡ some op
      → op.ackable ≡ true
      → packets q ≡ some oq
      → oq.ackable ≡ false
      → 10 < length w.ack_pending_queue
      → get_queued_packet empty_object packets w t
        ≡ done (op.packet, record w { sender_queue = xs ++ p ∷ rest }, t)
  unfolding get_queued_packet send_non_ackable
  get_queued_packet-lost w t [] p q rest op oq i e h live ack liveq n full = ground (
    arith,
    i.free,
    i.fresh,
    skip_ackable-found packets none [] p q rest oq tt (op, live, ack) liveq n,
    ap (skip_ackable packets none) e,
  )
  get_queued_packet-lost w t (x ∷ xs) p q rest op oq i e h live ack liveq n full = ground (
    arith,
    i.free,
    i.fresh,
    skip_ackable-found packets none (x ∷ xs) p q rest oq h (op, live, ack) liveq n,
    ap (skip_ackable packets none) e,
    h.0.1,
    h.0.2,
  )

  -- With the re-send flag set but nothing unacknowledged, a request for the oldest packet returns,
  -- and leaves the semaphore of the worker at 2: it excludes nobody any more.
  pub get_queued_packet-stale_flag :
      (w : Worker D) (t : Timeout) (p : ℕ) (rest : List ℕ) (o : OutPacket J)
      → w.worker_lock ≡ 1
      → w.ack_packet_pop ≡ record { flag = true }
      → w.ack_pending_queue ≡ []
      → w.sender_queue ≡ p ∷ rest
      → packets p ≡ some o
      → t.timeout_list_lock ≡ 1
      → Returns
          (λ r. (r.1.worker_lock ≡ 2) × (r.1.sender_queue ≡ rest) × (r.0 ≡ o.packet))
          (get_queued_packet empty_object packets w t)
  unfolding get_queued_packet add_packet
  get_queued_packet-stale_flag w t p rest o free set none_pending e live timer = ground arith
