-- ===== src/Sender/Deliver.antt =====
-- What one turn of the sender job does with the data on top of its sink.
use server_unit.Base.{
  ℕ, ◌+◌, ◌≤◌, ◌≡◌, refl, ◌∙◌, true, some, List, [], ◌∷◌, ◌++◌, arith, length, done, Returns,
  Returns-of_eq, update, String,
}
use server_unit.Task.{data_ready, sp_data_sent}
use server_unit.Double.{DoubleLib}
use server_unit.Json.{JsonLib, create}
use server_unit.Sink.{SinkItem, is_sink_empty, get_top_task_priority, pop_object}
use server_unit.Worker.{OutgoingDataState, Worker, new_packet, queue_packet}
use server_unit.Registry.{find_worker, put_worker}
use server_unit.Outgoing.{OutgoingRegistry, get_registry_from_id}
use server_unit.Outgoing.Status.{Tracks, with_state, later, find_entry-Tracks, Tracks-with_state}
use server_unit.State.{
  UserDataTable, Server, queue_new, registry_from_id, update_task_status, assign_worker,
}
use server_unit.State.Tracked.{
  status_calls, find_worker-put_worker, assign_worker-eq, update_task_status-Tracks,
}
use server_unit.Sender.Ideal.{find_ideal_worker}
use server_unit.Sender.Packets.{user_data_to_json}
use server_unit.Sender.Push.{send_user_data, push_user_data}

module _ (J : JsonLib) (F : DoubleLib) where
  open J use {Json}
  open F use {Double}

  -- The sink holds `top`, the data `u`, in front of `rest`, and its lock is free.
  pub record OnTop (top : SinkItem UserDataTable) (u : UserDataTable)
      (rest : List (SinkItem UserDataTable)) (s : Server Json Double) : Type 0 where
    pub listed : s.sender_sink.sink_item_list ≡ top ∷ rest
    pub holds : top.sink_item.data_object ≡ some u
    pub unlocked : s.sender_sink.sink_lock ≡ 1

  -- The worker `w` behind `a` takes a packet.
  pub record Takes (a : ℕ) (w : Worker Double) (s : Server Json Double) : Type 0 where
    pub found : find_worker a s.registry.current_worker_list ≡ some w
    pub free : w.worker_lock ≡ 1
    pub room : length w.sender_queue ≤ 20

  send_user_data-eq :
      (u : UserDataTable) (packet : Json) (a p : ℕ) (w : Worker Double) (st : OutgoingDataState)
      (s : Server Json Double)
      → user_data_to_json J u ≡ done packet
      → Takes a w s
      → Tracks s.outgoing u.user_table p st
      → send_user_data J F a u s
        ≡ update_task_status u.user_table data_ready (record s {
          next_address = s.next_address + 1;
          packets =
              update s.packets s.next_address
                (some (new_packet (create J sp_data_sent w.worker_uid packet) p true));
          outgoing = with_state s.outgoing p (record st { worker = a });
          registry = record s.registry {
            current_worker_list =
                put_worker a
                  (record w { sender_queue = w.sender_queue ++ s.next_address ∷ [] })
                  s.registry.current_worker_list;
          };
        })
  unfolding send_user_data queue_new registry_from_id assign_worker get_registry_from_id
      queue_packet
  send_user_data-eq u packet a p w st s e k t = ground (
    arith,
    k.found,
    k.free,
    k.room,
    find_entry-Tracks t,
    assign_worker-eq s.outgoing u.user_table p a st t,
  )

  push_user_data-eq :
      (top : SinkItem UserDataTable) (u : UserDataTable) (rest : List (SinkItem UserDataTable))
      (a : ℕ) (s : Server Json Double)
      → OnTop top u rest s
      → find_ideal_worker F top.sink_item.task_priority s.registry ≡ done (some a)
      → push_user_data J F s
        ≡ send_user_data J F a u
            (record s { sender_sink = record s.sender_sink { sink_item_list = rest } })
  unfolding push_user_data is_sink_empty get_top_task_priority pop_object
  push_user_data-eq top u rest a s o f = ground (arith, o.listed, o.holds, o.unlocked, f)

  -- The server after the turn: the packet stands at the next address. The registry of the data and
  -- the calls on the database are `r` and `database`.
  abbrev pub delivered :
      List (SinkItem UserDataTable)
      → Json
      → ℕ
      → ℕ
      → Worker Double
      → OutgoingRegistry
      → List (String × String)
      → Server Json Double
      → Server Json Double
  delivered rest packet a p w r database s = record s {
    sender_sink = record s.sender_sink { sink_item_list = rest };
    next_address = s.next_address + 1;
    packets =
        update s.packets s.next_address
          (some (new_packet (create J sp_data_sent w.worker_uid packet) p true));
    outgoing = r;
    database = database;
    registry = record s.registry {
      current_worker_list =
          put_worker a (record w { sender_queue = w.sender_queue ++ s.next_address ∷ [] })
            s.registry.current_worker_list;
    };
  }

  pub push_user_data-done :
      (top : SinkItem UserDataTable) (u : UserDataTable) (rest : List (SinkItem UserDataTable))
      (packet : Json) (a p : ℕ) (w : Worker Double) (st : OutgoingDataState)
      (s : Server Json Double)
      → OnTop top u rest s
      → find_ideal_worker F top.sink_item.task_priority s.registry ≡ done (some a)
      → user_data_to_json J u ≡ done packet
      → Takes a w s
      → Tracks s.outgoing u.user_table p st
      → s.reachable ≡ true
      → (r : OutgoingRegistry) × (database : List (String × String)) × (push_user_data J F s
          ≡ done (delivered rest packet a p w r database s))
        × Tracks r u.user_table p
            (record st { worker = a; task_status = later st.task_status data_ready })
  push_user_data-done top u rest packet a p w st s o f e k t up =
      let s₁ : Server Json Double = record s {
        sender_sink = record s.sender_sink { sink_item_list = rest };
      } in
      let (r, eq, t') =
        update_task_status-Tracks u.user_table data_ready p (record st { worker = a }) _
          (Tracks-with_state (record st { worker = a }) t refl) up in
      (
        r,
        s.database ++ status_calls st.task_status data_ready u.user_table,
        push_user_data-eq top u rest a s o f
            ∙ send_user_data-eq u packet a p w st s₁ e
                (record { found = k.found; free = k.free; room = k.room }) t
            ∙ eq,
        t',
      )

  -- With the data `u` on top of the sink, its text read, an ideal worker `a` for its priority that
  -- has a free lock and at most 20 queued packets, `u` tracked at `p` and the database reachable: the turn returns. The
  -- sink has lost the top; the packet for the worker, which needs an acknowledgement, is last in
  -- its queue; and the data is the worker's, and ready unless its status was past that.
  pub push_user_data-delivers :
      (top : SinkItem UserDataTable) (u : UserDataTable) (rest : List (SinkItem UserDataTable))
      (packet : Json) (a p : ℕ) (w : Worker Double) (st : OutgoingDataState)
      (s : Server Json Double)
      → OnTop top u rest s
      → find_ideal_worker F top.sink_item.task_priority s.registry ≡ done (some a)
      → user_data_to_json J u ≡ done packet
      → Takes a w s
      → Tracks s.outgoing u.user_table p st
      → s.reachable ≡ true
      → Returns
          (λ s'.
            (s'.sender_sink.sink_item_list ≡ rest)
            × (find_worker a s'.registry.current_worker_list
                ≡ some (record w { sender_queue = w.sender_queue ++ s.next_address ∷ [] }))
            × (s'.packets s.next_address
                ≡ some (new_packet (create J sp_data_sent w.worker_uid packet) p true))
            × Tracks s'.outgoing u.user_table p
                (record st { worker = a; task_status = later st.task_status data_ready }))
          (push_user_data J F s)
  push_user_data-delivers top u rest packet a p w st s o f e k t up =
      let (r, database, eq, t') = push_user_data-done top u rest packet a p w st s o f e k t up in
      Returns-of_eq _ (push_user_data J F s) eq (
        refl,
        find_worker-put_worker a w _ s.registry.current_worker_list k.found,
        ground arith,
        t',
      )
