-- ===== src/Worker/Ack.antt =====
-- `Worker::matchAckablePacket` of worker_node/worker.cpp.
use server_unit.Base.{
  ℕ, Bool, true, false, Option, none, some, List, [], ◌∷◌, String, str_eq, ◌==◌, if◌then◌else◌,
  Outcome, done, ◌>>=◌, sem_wait, sem_post, Heap, load, update,
}
use server_unit.Timeout.{Timeout, pop_packet}
use server_unit.Worker.{OutPacket, OutgoingDataState, Worker}

-- The result, with the heap of packets after it.
pub record Matched (J D : Type 0) : Type 0 where
  pub matched : Bool
  pub packets : Heap (OutPacket J)
  pub worker : Worker D
  pub timeout : Timeout

module _ {J : Type 0} (packets : Heap (OutPacket J)) (states : Heap OutgoingDataState) where
  -- The loop over the queue: null entries are erased, and so is the first packet whose state has
  -- the identifier. That packet, and the queue that is left.
  unfoldable pub find_acked : String → List ℕ → Outcome (Option ℕ × List ℕ)
  find_acked id [] = done (none, [])
  find_acked id (p ∷ ps) =
      let rest = find_acked id ps in
      let next = (do r ← rest; done (r.0, p ∷ r.1)) in
      let entry = (do
        o ← load packets p
        s ← load states o.out_data
        if str_eq s.id id then done (some p, ps) else next) in
      if p == 0 then rest else entry

module _ {J D : Type 0} (packets : Heap (OutPacket J)) (states : Heap OutgoingDataState) where
  -- The packet found leaves the timer and is deleted.
  unfoldable pub match_ackable_packet : String → Worker D → Timeout → Outcome (Matched J D)
  match_ackable_packet id w t = do
    lock ← sem_wait w.worker_lock
    r ← find_acked packets states id w.ack_pending_queue
    let w' : Worker D = record w { ack_pending_queue = r.1; worker_lock = sem_post lock }
    elim r.0 [
      | none ↦ done (record { matched = false; packets = packets; worker = w'; timeout = t })
      | some p ↦ do
        t' ← pop_packet p t
        done (record { matched = true; packets = update packets p none; worker = w'; timeout = t' })
    ]
