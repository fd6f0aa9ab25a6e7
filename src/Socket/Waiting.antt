-- ===== src/Socket/Waiting.antt =====
-- The loop in which a worker's session waits for a packet.
use server_unit.Base.{
  ℕ, zero, suc, ◌+◌, ◌<◌, ◌≤◌, ◌≡◌, refl, ap, length, ◌++◌, ◌∙◌, Bool, true, false, Option, none,
  some, List, [], ◌∷◌, arith, if◌then◌else◌, done, String,
}
use server_unit.Task.{sp_handshake, is_flag_set}
use server_unit.Json.{JsonLib, create}
use server_unit.Json.Schema.{SchemaLib}
use server_unit.Timeout.{Timeout}
use server_unit.Worker.{Worker, OutPacket}
use server_unit.Worker.Send.{get_queued_packet}
use server_unit.Worker.Delivery.{IsIdle, get_queued_packet-next}
use server_unit.Registry.{find_worker}
use server_unit.State.{Server, worker_at, with_worker}
use server_unit.State.Tracked.{find_worker-put_worker}
use server_unit.Socket.{take_packet, wait_for_packet}

-- The worker behind `a` is `w`.
abbrev pub Stands : {J D : Type 0} → ℕ → Worker D → Server J D → Type 0
Stands a w s = find_worker a s.registry.current_worker_list ≡ some w

pub worker_at-Stands :
    {J D : Type 0} (a : ℕ) (w : Worker D) (s : Server J D) → Stands a w s → worker_at a s ≡ done w
unfolding worker_at
worker_at-Stands a w s st = rw (st, worker_at) refl

pub Stands-with_worker :
    {J D : Type 0} (a : ℕ) (w w' : Worker D) (s : Server J D)
    → Stands a w s
    → Stands a w' (with_worker a w' s)
unfolding with_worker
Stands-with_worker a w w' s st = find_worker-put_worker a w w' s.registry.current_worker_list st

module _ (J : JsonLib) {D : Type 0} (S : SchemaLib J D) (parse : String → Option J.Json) where
  open J use {Json, object, is_empty}

  get_queued_packet-idle :
      (s : Server Json D) (w : Worker D)
      → IsIdle w
      → w.sender_queue ≡ []
      → get_queued_packet object s.packets w s.timeout ≡ done (object, w, s.timeout)
  unfolding get_queued_packet
  get_queued_packet-idle s w i e = ground (arith, i.free, i.fresh)

  -- A poll, from what the worker gives.
  pub take_packet-eq :
      (a : ℕ) (w w' : Worker D) (s : Server Json D) (j : Json) (t : Timeout)
      → Stands a w s
      → get_queued_packet object s.packets w s.timeout ≡ done (j, w', t)
      → (take_packet J S parse a s ≡ done (j, with_worker a w' (record s { timeout = t })))
        × Stands a w' (with_worker a w' (record s { timeout = t }))
  unfolding take_packet with_worker
  take_packet-eq a w w' s j t st g = (
    rw (worker_at-Stands a w s st) (rw g refl),
    find_worker-put_worker a w w' s.registry.current_worker_list st,
  )

  module _ (others : ℕ → Server Json D → Server Json D) (a : ℕ) (w : Worker D) where
    -- A packet `j` that is not empty stands first in the queue of the worker.
    abbrev pub Delivered : Json → Server Json D → Type 0
    Delivered j t =
        (p : ℕ) × (rest : List ℕ) × (o : OutPacket Json) × Stands a
          (record w { sender_queue = p ∷ rest }) t
        × (t.packets p ≡ some o)
        × (o.packet ≡ j)
        × (t.timeout.timeout_list_lock ≡ 1)

    -- The other threads leave the worker alone in the polls from `k` on, and before the `n`-th
    -- after it they queue the packet `j`.
    pub data Arrives (j : Json) : ℕ → ℕ → Type 0 where
      now :
          {k : ℕ}
          → ((t : Server Json D) → Stands a w t → Delivered j (others k t))
          → Arrives j zero k
      later :
          {n k : ℕ}
          → ((t : Server Json D) → Stands a w t → Stands a w (others k t))
          → Arrives j n (k + 1)
          → Arrives j (suc n) k

    -- A turn of the loop.
    pub wait_for_packet-eq :
        (fuel k : ℕ) (w' : Worker D) (s t : Server Json D) (j : Json) (b quick : Bool)
        → take_packet J S parse a (others k s) ≡ done (j, t)
        → Stands a w' t
        → is_empty j ≡ b
        → is_flag_set w'.quick_send_mode ≡ quick
        → wait_for_packet J S parse (suc fuel) others k a s ≡ (
            if b
            then (if quick
                then done (some (create J sp_handshake w'.worker_uid object, t))
                else wait_for_packet J S parse fuel others (k + 1) a t)
            else done (some (j, t)))
    unfolding wait_for_packet
    wait_for_packet-eq fuel k w' s t j b quick e st eb eq =
        rw (e, wait_for_packet)
          (rw (worker_at-Stands a w' t st) (
            rw eb (
              ap
                (λ (x : Bool).
                  if b
                  then (if x
                      then done (some (create J sp_handshake w'.worker_uid object, t))
                      else wait_for_packet J S parse fuel others (k + 1) a t)
                  else done (some (j, t)))
                eq)))

    -- A turn in which an idle worker has no packet.
    pub wait_for_packet-idle :
        (fuel k : ℕ) (s : Server Json D) (quick : Bool)
        → Stands a w (others k s)
        → IsIdle w
        → w.sender_queue ≡ []
        → is_flag_set w.quick_send_mode ≡ quick
        → wait_for_packet J S parse (suc fuel) others k a s ≡ (
            if quick
            then done
                (some (create J sp_handshake w.worker_uid object, with_worker a w (others k s)))
            else wait_for_packet J S parse fuel others (k + 1) a (with_worker a w (others k s)))
    wait_for_packet-idle fuel k s quick st i e q =
        let (r, st') =
          take_packet-eq a w w (others k s) object (others k s).timeout st
            (get_queued_packet-idle (others k s) w i e) in
        wait_for_packet-eq fuel k w s (with_worker a w (others k s)) object true quick r st'
          J.object_is_empty q

    -- A session of a worker that is idle and not in quick-send mode: if a packet `j` that is not
    -- empty is queued before the `n`-th poll after `k`, the loop ends with it, at that poll.
    pub wait_for_packet-Arrives :
        (fuel n k : ℕ) (s : Server Json D) (j : Json)
        → Stands a w s
        → IsIdle w
        → w.sender_queue ≡ []
        → length w.ack_pending_queue ≤ 10
        → is_flag_set w.quick_send_mode ≡ false
        → is_empty j ≡ false
        → Arrives j n k
        → n < fuel
        → (t : Server Json D) × (wait_for_packet J S parse fuel others k a s ≡ done (some (j, t)))
    wait_for_packet-Arrives zero n k s j st i e p q full d l = absurd (omega arith)
    wait_for_packet-Arrives (suc fuel) zero k s j st i e p q full (now d) l =
        let (x, rest, o, st', live, is, free) = d s st in
        let w' : Worker D = record w { sender_queue = x ∷ rest } in
        let v = others k s in
        let g =
          get_queued_packet-next object v.packets w' v.timeout x rest o
            (record { free = i.free; fresh = i.fresh }) refl live p free in
        let w'' : Worker D = record w {
          sender_queue = rest;
          ack_pending_queue =
              if o.ackable then w.ack_pending_queue ++ x ∷ [] else w.ack_pending_queue;
        } in
        let timed : Timeout =
          if o.ackable
          then record v.timeout { timed_packets = v.timeout.timed_packets ++ x ∷ [] }
          else v.timeout in
        let (r, st'') = take_packet-eq a w' w'' v o.packet timed st' g in
        let t = with_worker a w'' (record v { timeout = timed }) in
        (
          t,
          wait_for_packet-eq fuel k w'' s t o.packet false false r st'' (rw is full) q
              ∙ ap (λ y. done (some (y, t))) is,
        )
    wait_for_packet-Arrives (suc fuel) (suc n) k s j st i e p q full (later quiet d) l =
        let ih =
          wait_for_packet-Arrives fuel n (k + 1) (with_worker a w (others k s)) j
            (Stands-with_worker a w w (others k s) (quiet s st)) i e p q full d (omega arith) in
        (ih.0, wait_for_packet-idle fuel k s false (quiet s st) i e q ∙ ih.1)

    -- If the worker is idle and not in quick-send mode, and no packet is ever queued for it, the
    -- session never replies: the loop does not end for any fuel.
    pub wait_for_packet-endless :
        (fuel k : ℕ) (s : Server Json D)
        → Stands a w s
        → IsIdle w
        → w.sender_queue ≡ []
        → is_flag_set w.quick_send_mode ≡ false
        → ((k : ℕ) (t : Server Json D) → Stands a w t → Stands a w (others k t))
        → wait_for_packet J S parse fuel others k a s ≡ done none
    unfolding wait_for_packet
    wait_for_packet-endless zero k s st i e q quiet = refl
    wait_for_packet-endless (suc fuel) k s st i e q quiet =
        wait_for_packet-idle fuel k s false (quiet k s st) i e q
        ∙ wait_for_packet-endless fuel (k + 1) (with_worker a w (others k s))
            (Stands-with_worker a w w (others k s) (quiet k s st)) i e q quiet
