-- ===== src/Worker/Acknowledged.antt =====
-- What an acknowledgement changes.
use server_unit.Base.{
  ℕ, ◌≡◌, ◌≢◌, refl, ap, Bool, true, false, none, some, List, [], ◌∷◌, ◌++◌, String, str_eq, arith,
  All, remove_all, contains, contains-remove_all, done, Returns, Returns-of_eq, Heap, update,
}
use server_unit.Timeout.{Timeout, pop_packet}
use server_unit.Worker.{OutPacket, OutgoingDataState, Worker}
use server_unit.Worker.Ack.{find_acked, match_ackable_packet}

module _ {J : Type 0} (packets : Heap (OutPacket J)) (states : Heap OutgoingDataState) where
  -- The packet at the address is alive, is for live data, and the test of the data's identifier
  -- against `id` gives `b`.
  abbrev pub Tested : Bool → String → ℕ → Type 0
  Tested b id p =
      (o : OutPacket J) × (s : OutgoingDataState) × (packets p ≡ some o)
      × (states o.out_data ≡ some s)
      × ((str_eq s.id id) ≡ b)
      × (p ≢ 0)

  find_acked-found :
      (id : String) (before after : List ℕ) (p : ℕ)
      → All (Tested false id) before
      → Tested true id p
      → find_acked packets states id (before ++ p ∷ after) ≡ done (some p, before ++ after)
  unfolding find_acked
  find_acked-found id [] after p h (o, s, live, known, eq, nz) = ground arith
  find_acked-found id (x ∷ before) after p ((o, s, live, known, eq, nz), h) f =
      ground (arith, find_acked-found id before after p h f)

  find_acked-none :
      (id : String) (queue : List ℕ)
      → All (Tested false id) queue
      → find_acked packets states id queue ≡ done (none, queue)
  unfolding find_acked
  find_acked-none id [] h = refl
  find_acked-none id (x ∷ queue) ((o, s, live, known, eq, nz), h) =
      ground (arith, find_acked-none id queue h)

module _ {J D : Type 0} (packets : Heap (OutPacket J)) (states : Heap OutgoingDataState) where
  pub match_ackable_packet-eq :
      (id : String) (w : Worker D) (t : Timeout) (before after : List ℕ) (p : ℕ)
      → w.worker_lock ≡ 1
      → t.timeout_list_lock ≡ 1
      → w.ack_pending_queue ≡ before ++ p ∷ after
      → All (Tested packets states false id) before
      → Tested packets states true id p
      → match_ackable_packet packets states id w t
        ≡ done (record {
          matched = true;
          packets = update packets p none;
          worker = record w { ack_pending_queue = before ++ after };
          timeout = record t { timed_packets = remove_all p t.timed_packets };
        })
  unfolding match_ackable_packet pop_packet
  match_ackable_packet-eq id w t before after p free timer e h f = ground (
    arith,
    ap (find_acked packets states id) e,
    find_acked-found packets states id before after p h f,
  )

  -- With both locks free, an acknowledgement of `id` takes the first pending packet for that data
  -- out of the queue, deletes it and takes it off the timer, and changes no packet at another address.
  pub match_ackable_packet-true :
      (id : String) (w : Worker D) (t : Timeout) (before after : List ℕ) (p q : ℕ)
      → w.worker_lock ≡ 1
      → t.timeout_list_lock ≡ 1
      → w.ack_pending_queue ≡ before ++ p ∷ after
      → All (Tested packets states false id) before
      → Tested packets states true id p
      → q ≢ p
      → Returns
          (λ r.
            (r.matched ≡ true)
            × (r.worker ≡ record w { ack_pending_queue = before ++ after })
            × (r.packets p ≡ none)
            × (r.packets q ≡ packets q)
            × (contains p r.timeout.timed_packets ≡ false)
            × (r.timeout.timeout_list_lock ≡ 1))
          (match_ackable_packet packets states id w t)
  match_ackable_packet-true id w t before after p q free timer e h f ne =
      Returns-of_eq _ (match_ackable_packet packets states id w t)
        (match_ackable_packet-eq id w t before after p free timer e h f)
        (refl, refl, ground arith, ground arith, contains-remove_all p t.timed_packets, timer)

  -- If no pending packet is for that data, the answer is false and nothing changes.
  pub match_ackable_packet-false :
      (id : String) (w : Worker D) (t : Timeout)
      → w.worker_lock ≡ 1
      → All (Tested packets states false id) w.ack_pending_queue
      → match_ackable_packet packets states id w t
        ≡ done (record { matched = false; packets = packets; worker = w; timeout = t })
  unfolding match_ackable_packet
  match_ackable_packet-false id w t free h =
      ground (arith, find_acked-none packets states id w.ack_pending_queue h)
