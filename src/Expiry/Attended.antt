-- ===== src/Expiry/Attended.antt =====
-- A round of the timer while all workers are present.
use server_unit.Base.{
  ℕ, ◌≡◌, refl, ap, ◌∙◌, Bool, true, Bool-cases, inl, inr, Option-cases, some, List, [], ◌∷◌, map,
  arith, All, ◌==◌, sem_wait, load, WhenDone, WhenDone-bind, WhenDone-then, WhenDone-if,
  WhenDone-weaken,
}
use server_unit.Task.{data_final, status_code}
use server_unit.Outgoing
use server_unit.Timeout.{pop_packet}
use server_unit.Worker.{OutPacket, OutgoingDataState, Worker, is_checked_in, push_to_front}
use server_unit.Registry.{Entry, find_worker, put_worker}
use server_unit.State.{Server, worker_at, with_worker}
use server_unit.Expiry.{
  send_again, strike, is_packet_checked_in, expire_packet, expire_packets, execute,
}

module _ {D : Type 0} where
  -- The attendance flag of the worker is set, as its constructor sets it.
  abbrev pub IsPresent : Entry D → Type 0
  IsPresent e = is_checked_in e.worker ≡ true

  abbrev pub addresses : List (Entry D) → List ℕ
  addresses l = map (λ e. e.address) l

  find_worker-IsPresent :
      (a : ℕ) (l : List (Entry D)) (w : Worker D)
      → find_worker a l ≡ some w
      → All IsPresent l
      → is_checked_in w ≡ true
  unfolding find_worker
  find_worker-IsPresent a [] w e h = cc
  find_worker-IsPresent a (x ∷ l) w e h = ground (arith, find_worker-IsPresent a l w, h.0)

  put_worker-IsPresent :
      (a : ℕ) (w : Worker D) (l : List (Entry D))
      → is_checked_in w ≡ true
      → All IsPresent l
      → All IsPresent (put_worker a w l) × (addresses (put_worker a w l) ≡ addresses l)
  unfolding put_worker
  put_worker-IsPresent a w [] here h = (tt, refl)
  put_worker-IsPresent a w (x ∷ l) here h = elim (Bool-cases (x.address == a)) [
    | inl e ↦ rw (e, put_worker) ((here, h.1), refl)
    | inr e ↦
        let (all, places) = put_worker-IsPresent a w l here h.1 in
        rw (e, put_worker) ((h.0, all), ap (λ (ps : List ℕ). x.address ∷ ps) places)
  ]

  push_to_front-present :
      (p : ℕ) (w : Worker D)
      → WhenDone (λ w'. is_checked_in w' ≡ is_checked_in w) (push_to_front p w)
  unfolding push_to_front
  push_to_front-present p w = WhenDone-then _ (sem_wait w.worker_lock) _ (λ lock. refl)

module _ {J D : Type 0} where
  abbrev pub AllPresent : Server J D → Type 0
  AllPresent s = All IsPresent s.registry.current_worker_list

  -- The workers are those that there were, all present, and no packet is to be handed over that was
  -- not before.
  abbrev pub KeepsWorkers : Server J D → Server J D → Type 0
  KeepsWorkers s s' =
      AllPresent s'
      × (addresses s'.registry.current_worker_list ≡ addresses s.registry.current_worker_list)
      × (s'.registry.dead_worker_list ≡ s.registry.dead_worker_list)
      × (s'.pending_packets_list ≡ s.pending_packets_list)

  KeepsWorkers-trans : (s t u : Server J D) → KeepsWorkers s t → KeepsWorkers t u → KeepsWorkers s u
  KeepsWorkers-trans s t u (a, b, c, d) (a', b', c', d') = (a', b' ∙ b, c' ∙ c, d' ∙ d)

  -- The loop goes on.
  abbrev Passed : Server J D → Bool × Server J D → Type 0
  Passed s r = (r.0 ≡ true) × KeepsWorkers s r.1

  worker_at-present :
      (a : ℕ) (s : Server J D)
      → AllPresent s
      → WhenDone (λ w. is_checked_in w ≡ true) (worker_at a s)
  unfolding worker_at
  worker_at-present a s h = elim (Option-cases (find_worker a s.registry.current_worker_list)) [
    | inl e ↦ rw (e, worker_at, WhenDone) tt
    | inr (w, e) ↦
        rw (e, worker_at, WhenDone) (find_worker-IsPresent a s.registry.current_worker_list w e h)
  ]

  send_again-Passed :
      (p a : ℕ) (s : Server J D) → AllPresent s → WhenDone (Passed s) (send_again p a s)
  unfolding send_again with_worker
  send_again-Passed p a s h =
      WhenDone-bind (λ w. is_checked_in w ≡ true) (Passed s) (worker_at a s) _
        (worker_at-present a s h)
        (λ w here.
          WhenDone-bind (λ w'. is_checked_in w' ≡ is_checked_in w) (Passed s) (push_to_front p w) _
            (push_to_front-present p w)
            (λ w' same.
              let (all, places) =
                put_worker-IsPresent a w' s.registry.current_worker_list (same ∙ here) h in
              (refl, (all, places, refl, refl))))

  strike-Passed : (p a : ℕ) (s : Server J D) → AllPresent s → WhenDone (Passed s) (strike p a s)
  unfolding strike
  strike-Passed p a s h =
      WhenDone-bind (λ w. is_checked_in w ≡ true) (Passed s) (worker_at a s) _
        (worker_at-present a s h) (λ w here. rw here (send_again-Passed p a s h))

  expire_packet-Passed :
      (p : ℕ) (s : Server J D) → AllPresent s → WhenDone (Passed s) (expire_packet p s)
  unfolding expire_packet
  expire_packet-Passed p s h = WhenDone-then (Passed s) (load s.packets p) _ (λ (o : OutPacket J).
      WhenDone-then (Passed s) (load s.outgoing.states o.out_data) _ (λ (d : OutgoingDataState).
        WhenDone-if (Passed s) (is_packet_checked_in o) _ _
          (WhenDone-if (Passed s) (status_code d.task_status == status_code data_final) _ _
            (WhenDone-then (Passed s) (pop_packet p s.timeout) _
              (λ t. WhenDone-then (Passed s) (Outgoing.delete d.id s.outgoing) _ (λ r. tt)))
            (refl, (h, refl, refl, refl)))
          (strike-Passed p d.worker s h)))

  expire_packets-Passed :
      (ps : List ℕ) (s : Server J D) → AllPresent s → WhenDone (Passed s) (expire_packets ps s)
  unfolding expire_packets
  expire_packets-Passed [] s h = (refl, (h, refl, refl, refl))
  expire_packets-Passed (p ∷ ps) s h =
      WhenDone-bind (Passed s) (Passed s) (expire_packet p s) _ (expire_packet-Passed p s h)
        (λ r (on, kept). rw on (
          WhenDone-weaken (Passed r.1) (Passed s) (expire_packets ps r.1)
            (expire_packets-Passed ps r.1 kept.0)
            (λ r' (on', kept'). (on', KeepsWorkers-trans s r.1 r'.1 kept kept'))))

  -- While the attendance flag of every connected worker is set, as the constructor sets it, a round
  -- of the timer that returns deletes no worker, hands no packet over, and leaves all present,
  -- however late their packets are.
  pub execute-KeepsWorkers : (s : Server J D) → AllPresent s → WhenDone (KeepsWorkers s) (execute s)
  unfolding execute
  execute-KeepsWorkers s h =
      WhenDone-then (KeepsWorkers s) (sem_wait s.timeout.timeout_list_lock) _ (λ lock.
        let taken : Server J D = record s {
          timeout = record s.timeout { timeout_list_lock = lock };
        } in
        WhenDone-bind (Passed taken) (KeepsWorkers s) (expire_packets s.timeout.timed_packets taken)
          _ (expire_packets-Passed s.timeout.timed_packets taken h) (λ r (on, kept). rw on kept))
