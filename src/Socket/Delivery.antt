-- ===== src/Socket/Delivery.antt =====
-- The way of user data from the sender core into the reply to a worker.
use server_unit.Base.{
  str_eq, ◌+◌, none, ◌≢◌, ◌⊎◌, contains, Returns, Returns-weaken, subst, sym, Outcome, ℕ, suc, ◌≤◌,
  ◌≡◌, refl, ◌∙◌, ap, true, false, Option, some, List, [], ◌∷◌, ◌++◌, String, arith, length, done,
  ◌>>=◌,
}
use server_unit.Base.Int.{ℤ, pos}
use server_unit.Task.{data_ready, sp_data_sent}
use server_unit.Double.{DoubleLib}
use server_unit.Json.{JsonLib, create}
use server_unit.Json.Schema.{SchemaLib}
use server_unit.Sink.{SinkItem}
use server_unit.Sink.Order.{HasRoom}
use server_unit.Timeout.{Timeout}
use server_unit.Worker.{OutPacket, OutgoingDataState, Worker, new_packet}
use server_unit.Worker.Delivery.{IsIdle, get_queued_packet-next}
use server_unit.Registry.{get_worker_from_uid}
use server_unit.Outgoing.{OutgoingRegistry}
use server_unit.Outgoing.Status.{Tracks, later}
use server_unit.State.{Server, UserDataTable, with_worker}
use server_unit.State.Tracked.{find_worker-put_worker}
use server_unit.Sender.Push.{push_user_data}
use server_unit.Sender.Deliver.{delivered, push_user_data-done}
use server_unit.Templates.{has_name, names}
use server_unit.Status.{ProcessStatusPacket, packet_status_parse, int_has_bit}
use server_unit.Status.Acknowledged.{packet_status_parse-acknowledges}
use server_unit.Socket.{on_read}
use server_unit.Socket.Waiting.{Stands, Stands-with_worker, take_packet-eq, wait_for_packet-eq}
use server_unit.Socket.Receive.{PoolHasRoom, in_mode, queued}
use server_unit.Socket.Ready.{find_uid-put_worker, Stands-queued, Ready}
use server_unit.Socket.Messages.{IsMessage, on_read-queued}

module _ (J : JsonLib) (F : DoubleLib) (S : SchemaLib J F.Double)
    (parse : String → Option J.Json) where
  open J use {Json, is_empty, at, get_int, assign_is_empty}
  open F use {Double}

  create-nonempty : (uid : String) (j : Json) → is_empty (create J sp_data_sent uid j) ≡ false
  unfolding create
  create-nonempty uid j = grind (arith, assign_is_empty)

  module _ (draws : ℕ → ℕ) (zero_time : Double)
      (others : ℕ → Server Json Double → Server Json Double)
      (calm : (t : Server Json Double) → others 0 t ≡ t) (out uid : String) (message : Json) (n : ℤ)
      (m : IsMessage J S parse out uid message) (code : get_int (at message "head") ≡ some n) where
    -- The worker when it has been given the packet at `x`.
    abbrev served : ℕ → List ℕ → Worker Double → Worker Double
    served x rest w = record (in_mode (int_has_bit 6 n) w) {
      sender_queue = rest;
      ack_pending_queue = w.ack_pending_queue ++ x ∷ [];
    }

    abbrev timed : ℕ → Timeout → Timeout
    timed x t = record t { timed_packets = t.timed_packets ++ x ∷ [] }

    -- The server after the reply: the message is one of the items of the receiver sink.
    abbrev replied :
        List (SinkItem Json)
        → ℕ
        → ℕ
        → List ℕ
        → Worker Double
        → Server Json Double
        → Server Json Double
    replied items a x rest w s =
        with_worker a (served x rest w)
          (record (queued a (in_mode (int_has_bit 6 n) w) items s) { timeout = timed x s.timeout })

    -- A message from a connected worker with the packet at `x` first in its queue.
    on_read-next :
        (fuel a x : ℕ) (rest : List ℕ) (o : OutPacket Json) (w : Worker Double)
        (s : Server Json Double)
        → get_worker_from_uid uid s.registry ≡ some a
        → Stands a w s
        → HasRoom s.receiver_sink
        → PoolHasRoom s.task_pool
        → IsIdle w
        → w.sender_queue ≡ x ∷ rest
        → length w.ack_pending_queue ≤ 10
        → s.packets x ≡ some o
        → o.ackable ≡ true
        → is_empty o.packet ≡ false
        → s.timeout.timeout_list_lock ≡ 1
        → (items : List (SinkItem Json)) × (on_read J S parse
              (suc fuel)
              draws
              zero_time
              others
              out
              s
            ≡ done (some (o.packet, replied items a x rest w s)))
    unfolding with_worker
    on_read-next fuel a x rest o w s known st room pool idle listed acks live ackable full lock =
        let w' : Worker Double = in_mode (int_has_bit 6 n) w in
        let (items, read, _) =
          on_read-queued J S parse draws zero_time others out s a n uid message w m known st code
            room pool (suc fuel) in
        let s₁ = queued a w' items s in
        let st₁ : Stands a w' s₁ = Stands-queued a w w' items s st in
        let next =
          get_queued_packet-next J.object s₁.packets w' s₁.timeout x rest o
            (record { free = idle.free; fresh = idle.fresh }) listed live acks lock in
        let next' = next ∙ rw ackable refl in
        let (taken, st₂) =
          take_packet-eq J S parse a w' (served x rest w) s₁ o.packet (timed x s.timeout) st₁
            next' in
        (
          items,
          read
              ∙ wait_for_packet-eq J S parse others a w' fuel 0 (served x rest w) s₁
                  (replied items a x rest w s) o.packet false (int_has_bit 6 n) (rw (calm s₁) taken)
                  st₂ full refl,
        )

    -- The worker and its identifier after the reply.
    replied-Stands :
        (items : List (SinkItem Json)) (a x : ℕ) (rest : List ℕ) (w : Worker Double)
        (s : Server Json Double)
        → Stands a w s
        → Stands a (served x rest w) (replied items a x rest w s)
          × (get_worker_from_uid uid (replied items a x rest w s).registry
              ≡ get_worker_from_uid uid s.registry)
    unfolding with_worker get_worker_from_uid
    replied-Stands items a x rest w s st =
        let w' : Worker Double = in_mode (int_has_bit 6 n) w in
        let st₁ = Stands-queued a w w' items s st in
        (
          Stands-with_worker a w' (served x rest w) (queued a w' items s) st₁,
          find_uid-put_worker uid a w' (served x rest w)
                (queued a w' items s).registry.current_worker_list st₁ refl
              ∙ find_uid-put_worker uid a w w' s.registry.current_worker_list st refl,
        )

    abbrev turn_and_reply : ℕ → Server Json Double → Outcome (Option (Json × Server Json Double))
    turn_and_reply fuel s =
        push_user_data J F s >>= on_read J S parse (suc fuel) draws zero_time others out

    -- The server after both: `r` is the registry of the data, `calls` those on the database.
    abbrev after :
        List (SinkItem Json)
        → OutgoingRegistry
        → List (String × String)
        → List (SinkItem UserDataTable)
        → Json
        → ℕ
        → ℕ
        → Worker Double
        → Server Json Double
        → Server Json Double
    after items r calls rest body a p w s =
        replied items a s.next_address []
          (record w { sender_queue = w.sender_queue ++ s.next_address ∷ [] })
          (delivered J F rest body a p w r calls s)

    turn_and_reply-eq :
        (fuel a p : ℕ) (top : SinkItem UserDataTable) (u : UserDataTable)
        (rest : List (SinkItem UserDataTable)) (body : Json) (w : Worker Double)
        (st : OutgoingDataState) (s : Server Json Double)
        → Ready J F uid a p top u rest body w st s
        → (items : List (SinkItem Json)) × (r : OutgoingRegistry) × (calls : List (String × String))
          × (turn_and_reply fuel s
              ≡ done (
                  some (
                    create J sp_data_sent w.worker_uid body,
                    after items r calls rest body a p w s,
                  )))
          × Tracks r u.user_table p
              (record st { worker = a; task_status = later st.task_status data_ready })
          × Stands a (served s.next_address [] w) (after items r calls rest body a p w s)
          × (get_worker_from_uid uid (after items r calls rest body a p w s).registry ≡ some a)
    unfolding get_worker_from_uid
    turn_and_reply-eq fuel a p top u rest body w st s h =
        let (r, calls, pushed, tracked) =
          push_user_data-done J F top u rest body a p w st s h.on_top h.ideal h.text
            (record { found = h.found; free = h.idle.free; room = rw h.unqueued (omega arith) })
            h.tracked h.reachable in
        let s' = delivered J F rest body a p w r calls s in
        let w' : Worker Double = record w {
          sender_queue = w.sender_queue ++ s.next_address ∷ [];
        } in
        let known =
          find_uid-put_worker uid a w w' s.registry.current_worker_list h.found refl ∙ h.known in
        let found = find_worker-put_worker a w w' s.registry.current_worker_list h.found in
        let (items, read) =
          on_read-next fuel a s.next_address []
            (new_packet (create J sp_data_sent w.worker_uid body) p true) w' s' known found h.room
            h.pool (record { free = h.idle.free; fresh = h.idle.fresh }) (rw h.unqueued refl) h.acks
            (ground arith) refl (create-nonempty w.worker_uid body) h.lock in
        let (stands, same) = replied-Stands items a s.next_address [] w' s' found in
        (items, r, calls, rw pushed read, tracked, stands, same ∙ known)

    -- The data `u` is on top of the sender sink, its text read, and tracked at `p`; an ideal worker
    -- for its priority has a free lock, its re-send flag off, no packet queued and at most ten
    -- unacknowledged; the timer is free, the receiver sink and the task pool are unlocked and have
    -- room, and the database can be reached. If the sender core takes a turn and then the worker
    -- sends a valid message, with nobody else in between, the reply is the packet with the data: it waits
    -- for its acknowledgement, behind the others of the worker, and is timed, and the data is the
    -- worker's, and still only ready, as the turn left it, unless its status was past that.
    pub push_user_data-replied :
        (fuel a p : ℕ) (top : SinkItem UserDataTable) (u : UserDataTable)
        (rest : List (SinkItem UserDataTable)) (body : Json) (w : Worker Double)
        (st : OutgoingDataState) (s : Server Json Double)
        → Ready J F uid a p top u rest body w st s
        → (t : Server Json Double) × (turn_and_reply fuel s
            ≡ done (some (create J sp_data_sent w.worker_uid body, t)))
          × Stands a (served s.next_address [] w) t
          × (t.timeout.timed_packets ≡ s.timeout.timed_packets ++ s.next_address ∷ [])
          × Tracks t.outgoing u.user_table p
              (record st { worker = a; task_status = later st.task_status data_ready })
    unfolding with_worker
    push_user_data-replied fuel a p top u rest body w st s h =
        let (items, r, calls, eq, tracked, stands, _) =
          turn_and_reply-eq fuel a p top u rest body w st s h in
        (after items r calls rest body a p w s, eq, stands, refl, tracked)

    -- The data `u` is on top of the sender sink, its text read, tracked at `p` and not named like a
    -- template; an ideal worker for its priority has a free lock, its re-send flag off and no packet
    -- queued or unacknowledged; the timer and the templates are free, the receiver sink and the task
    -- pool are unlocked and have room, and the database can be reached. If the sender core takes a
    -- turn, the worker sends a valid message, and then a packet without statistics that acknowledges the
    -- data is processed, with nobody else in between: the message is answered with the data, and at
    -- the end the worker has no packet queued or unacknowledged, the packet is deleted and no longer
    -- timed, and the data is the worker's, and still only ready, which neither the reply nor the
    -- acknowledgement changes, unless its status was past that.
    pub push_user_data-acknowledged :
        (stoi : String → Option ℤ) (fuel a p code : ℕ) (top : SinkItem UserDataTable)
        (u : UserDataTable) (rest : List (SinkItem UserDataTable)) (body : Json) (w : Worker Double)
        (st : OutgoingDataState) (q : ProcessStatusPacket Double) (s : Server Json Double)
        → Ready J F uid a p top u rest body w st s
        → w.ack_pending_queue ≡ []
        → s.next_address ≢ 0
        → s.templates.template_lock ≡ 1
        → has_name u.user_table (names s.templates.template_list) ≡ false
        → q.packet_code ≡ pos code
        → (code ≡ 4) ⊎ (code ≡ 68)
        → q.stats_present ≡ false
        → q.sender_uid ≡ uid
        → q.table_id ≡ u.user_table
        → (t : Server Json Double) × (turn_and_reply fuel s
            ≡ done (some (create J sp_data_sent w.worker_uid body, t)))
          × Returns
              (λ v.
                Stands a
                  (record (in_mode (int_has_bit 6 n) w) {
                    sender_queue = [];
                    ack_pending_queue = [];
                  })
                  v
                × (v.packets s.next_address ≡ none)
                × (contains s.next_address v.timeout.timed_packets ≡ false)
                × Tracks v.outgoing u.user_table p
                    (record st { worker = a; task_status = later st.task_status data_ready }))
              (packet_status_parse J stoi q t)
    unfolding with_worker
    push_user_data-acknowledged stoi fuel a p code top u rest body w st q s h acks live lock other
          is c none_sent from same =
        let (items, r, calls, eq, tracked, stands, known) =
          turn_and_reply-eq fuel a p top u rest body w st s h in
        let t = after items r calls rest body a p w s in
        let x = s.next_address in
        let st' : OutgoingDataState = record st {
          worker = a;
          task_status = later st.task_status data_ready;
        } in
        let settled =
          packet_status_parse-acknowledges J stoi code a x (x + 1) [] [] q (served x [] w) t is c
            none_sent (ap (λ (i : String). get_worker_from_uid i t.registry) from ∙ known) stands
            h.idle.free h.lock lock (rw acks refl) tt
            (
              new_packet (create J sp_data_sent w.worker_uid body) p true,
              st',
              ground arith,
              tracked.held,
              ap (str_eq st'.id) same ∙ tracked.same_id,
              live,
            )
            (ap (λ (i : String). has_name i (names s.templates.template_list)) same ∙ other)
            (omega arith) in
        (
          t,
          eq,
          Returns-weaken _ _ (packet_status_parse J stoi q t) settled
              (λ v (worker, gone, _, untimed, kept, _, _). (
                worker,
                gone,
                untimed,
                subst (λ o. Tracks o u.user_table p st') (sym kept) tracked,
              )),
        )
