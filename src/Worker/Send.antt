-- ===== src/Worker/Send.antt =====
-- `Worker::getQueuedPacket` of worker_node/worker.cpp.
use mathlib.Core.Option
use server_unit.Base.{
  ℕ, ◌++◌, ◌/◌, Option, none, some, List, [], ◌∷◌, length, ltb, if◌then◌else◌, Outcome, done, fault,
  ◌>>=◌, sem_wait, sem_post, Heap, load,
}
use server_unit.Task.{reset_flag, is_flag_set}
use server_unit.Timeout.{Timeout, add_packet}
use server_unit.Worker.{OutPacket, Worker, worker_queue_size}

module _ {J : Type 0} (packets : Heap (OutPacket J)) where
  -- The loop over the sender queue stops at the first packet that is not ackable and erases it by
  -- `erase(i--)`: what `i` stands at then (none for the end of the list) and the queue that is left.
  unfoldable pub skip_ackable : Option ℕ → List ℕ → Outcome (Option (Option ℕ × List ℕ))
  skip_ackable before [] = done none
  skip_ackable before (p ∷ ps) =
      let rest = (do
        r ← skip_ackable (some p) ps
        done (Option.map (λ (s : Option ℕ × List ℕ). (s.0, p ∷ s.1)) r)) in
      do o ← load packets p; if o.ackable then rest else done (some (before, ps))

module _ {J D : Type 0} (empty_object : J) (packets : Heap (OutPacket J)) where
  -- The acknowledgement queue is full: only a packet that needs none may go. What is returned is
  -- the packet that `i` stands at after the erase.
  unfoldable pub send_non_ackable : Worker D → Timeout → ℕ → Outcome (J × Worker D × Timeout)
  unfolding skip_ackable
  send_non_ackable w t lock = do
    r ← skip_ackable packets none w.sender_queue
    elim r [
      | none ↦ done (empty_object, record w { worker_lock = sem_post lock }, t)
      | some (none, rest) ↦ fault
      | some (some before, rest) ↦ do
        o ← load packets before
        done (o.packet, record w { sender_queue = rest; worker_lock = sem_post lock }, t)
    ]

  -- From `if(senderQueue.size() > 0)` on; `lock` is the semaphore then.
  unfoldable pub send_next : Worker D → Timeout → ℕ → Outcome (J × Worker D × Timeout)
  send_next w t lock = elim w.sender_queue [
    | [] ↦ done (empty_object, record w { worker_lock = sem_post lock }, t)
    | p ∷ rest ↦ do
      o ← load packets p
      let ack = (do
        t' ← add_packet p t
        done (
          o.packet,
          record w {
            sender_queue = rest;
            ack_pending_queue = w.ack_pending_queue ++ p ∷ [];
            worker_lock = sem_post lock;
          },
          t',
        ))
      let full = ltb (worker_queue_size / 2) (length w.ack_pending_queue)
      if o.ackable
          then if full then send_non_ackable w t lock else ack
          else done (o.packet, record w { sender_queue = rest; worker_lock = sem_post lock }, t)
  ]

  -- With the re-send flag set and nothing to acknowledge, the lock is posted and the call goes on
  -- without it.
  unfoldable pub get_queued_packet : Worker D → Timeout → Outcome (J × Worker D × Timeout)
  unfolding send_next
  get_queued_packet w t = do
    lock ← sem_wait w.worker_lock
    let cleared : Worker D = record w { ack_packet_pop = reset_flag w.ack_packet_pop }
    let again : Outcome (J × Worker D × Timeout) = elim w.ack_pending_queue [
      | [] ↦ send_next cleared t (sem_post lock)
      | p ∷ _ ↦ do
        o ← load packets p
        done (o.packet, record cleared { worker_lock = sem_post lock }, t)
    ]
    if is_flag_set w.ack_packet_pop then again else send_next w t lock
