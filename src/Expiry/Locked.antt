-- ===== src/Expiry/Locked.antt =====
-- What the timer does to late packets and where it leaves its own lock taken.
use server_unit.Base.{
  ℕ, ◌≡◌, refl, true, false, none, some, List, [], ◌∷◌, ◌++◌, arith, contains, blocked, Returns,
}
use server_unit.Task.{data_final}
use server_unit.Timeout.{is_worker_registered, pop_packet, add_packet}
use server_unit.Worker.{OutPacket, OutgoingDataState, Worker, shut_down}
use server_unit.Registry.{find_worker, Entry, remove_worker, delete_worker}
use server_unit.SenderData.{add_all-append}
use server_unit.State.{Server, worker_at}
use server_unit.Expiry.{strike, expire_packet, expire_packets, execute}

find_worker-remove_worker :
    {D : Type 0} (a : ℕ) (es : List (Entry D)) → find_worker a (remove_worker a es) ≡ none
unfolding find_worker remove_worker
find_worker-remove_worker a [] = refl
find_worker-remove_worker a (e ∷ es) = ground (arith, find_worker-remove_worker a es)

module _ {J D : Type 0} where
  -- The packet `o` at `p` is the first that is timed, is for the data `d`, and the timer is free.
  pub record First (p : ℕ) (ps : List ℕ) (o : OutPacket J) (d : OutgoingDataState) (s : Server J D)
      : Type 0 where
    pub timed : s.timeout.timed_packets ≡ p ∷ ps
    pub live : s.packets p ≡ some o
    pub known : s.outgoing.states o.out_data ≡ some d
    pub free : s.timeout.timeout_list_lock ≡ 1

  -- If the first timed packet is checked in and its data final, the timer waits for ever on the
  -- lock that it holds itself.
  pub execute-blocked :
      (s : Server J D) (p : ℕ) (ps : List ℕ) (o : OutPacket J) (d : OutgoingDataState)
      → First p ps o d s
      → o.status ≡ record { flag = true }
      → d.task_status ≡ data_final
      → execute s ≡ blocked
  unfolding execute expire_packets expire_packet pop_packet
  execute-blocked s p ps o d f c final = ground (arith, f.timed, f.live, f.known, f.free)

  -- If the first timed packet is late and its worker `w`, which is not checked in and whose lock is
  -- free, has a strike already, the timer returns: all packets of the worker are pending for
  -- others, the worker is at its address no more, and the timer's lock stays taken, so that no
  -- further packet can be timed.
  pub execute-second_strike :
      (s : Server J D) (p q : ℕ) (ps : List ℕ) (o : OutPacket J) (d : OutgoingDataState)
      (w : Worker D)
      → First p ps o d s
      → o.status ≡ record { flag = false }
      → find_worker d.worker s.registry.current_worker_list ≡ some w
      → w.attendance ≡ record { flag = false }
      → w.worker_lock ≡ 1
      → contains d.worker s.timeout.timedout_worker_registry ≡ true
      → Returns
          (λ s'.
            (s'.pending_packets_list
              ≡ s.pending_packets_list ++ (w.ack_pending_queue ++ w.sender_queue))
            × (find_worker d.worker s'.registry.current_worker_list ≡ none)
            × (add_packet q s'.timeout ≡ blocked))
          (execute s)
  unfolding execute expire_packets expire_packet strike worker_at is_worker_registered delete_worker
      shut_down add_packet
  execute-second_strike s p q ps o d w f late found away free struck = ground (
    arith,
    f.timed,
    f.live,
    f.known,
    f.free,
    late,
    found,
    away,
    free,
    struck,
    find_worker-remove_worker d.worker s.registry.current_worker_list,
    add_all-append (w.ack_pending_queue ++ w.sender_queue) s.pending_packets_list,
  )
