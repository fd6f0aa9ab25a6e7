-- ===== src/Status/Results.antt =====
-- What a worker's result changes.
use server_unit.Base.{
  true, ℕ, ◌+◌, ◌≤◌, ◌≡◌, ◌≢◌, ◌⊎◌, refl, ◌∙◌, Bool, false, Option, some, [], ◌∷◌, ◌++◌, String,
  arith, length, done, Returns, Returns-of_eq, update, inl, inr,
}
use server_unit.Base.Int.{ℤ, pos}
use server_unit.Task.{
  ServerPacketCodes, sp_intr_ack, sp_fres_ack, UserTaskStatus, data_inter, data_final,
}
use server_unit.Json.{JsonLib, create}
use server_unit.Worker.{OutgoingDataState, Worker, new_packet, queue_packet}
use server_unit.Registry.{get_worker_from_uid, find_worker, put_worker}
use server_unit.Outgoing.{get_registry_from_id}
use server_unit.Outgoing.Status.{Tracks, later, find_entry-Tracks}
use server_unit.State.{Server, queue_new, registry_from_id, update_task_status}
use server_unit.State.Tracked.{status_calls, find_worker-put_worker, update_task_status-Tracks}
use server_unit.Status.{
  ProcessStatusPacket, clear_qsend, receive_result, dispatch, dispatch_code, set_worker_stats,
  packet_status_parse,
}

-- The code of a result, the status that it brings and the acknowledgement that it gets.
pub data Answers : ℕ → UserTaskStatus → ServerPacketCodes → Type 0 where
  inter : Answers 8 data_inter sp_intr_ack
  final : Answers 16 data_final sp_fres_ack

clear_qsend-Answers :
    {n code : ℕ} {status : UserTaskStatus} {ack : ServerPacketCodes}
    → Answers n status ack
    → (code ≡ n) ⊎ (code ≡ n + 64)
    → clear_qsend code ≡ n
unfolding clear_qsend
clear_qsend-Answers inter (inl e) = rw e refl
clear_qsend-Answers inter (inr e) = rw e refl
clear_qsend-Answers final (inl e) = rw e refl
clear_qsend-Answers final (inr e) = rw e refl

module _ (J : JsonLib) {D : Type 0} where
  open J use {Json, object}

  dispatch-eq :
      (n a : ℕ) (status : UserTaskStatus) (ack : ServerPacketCodes) (p : ProcessStatusPacket D)
      (s : Server Json D)
      → Answers n status ack
      → dispatch J n a p s ≡ receive_result J status ack a p s
  unfolding dispatch
  dispatch-eq _ a _ _ p s inter = refl
  dispatch-eq _ a _ _ p s final = refl

  -- The server in which the new packet is last in the queue of the worker `w` behind `a`.
  abbrev queued : ℕ → ℕ → Json → Bool → Worker D → Server Json D → Server Json D
  queued a q packet ackable w s = record s {
    next_address = s.next_address + 1;
    packets = update s.packets s.next_address (some (new_packet packet q ackable));
    registry = record s.registry {
      current_worker_list =
          put_worker a (record w { sender_queue = w.sender_queue ++ s.next_address ∷ [] })
            s.registry.current_worker_list;
    };
  }

  queue_new-eq :
      (a q : ℕ) (packet : Json) (ackable : Bool) (w : Worker D) (s : Server Json D)
      → find_worker a s.registry.current_worker_list ≡ some w
      → w.worker_lock ≡ 1
      → length w.sender_queue ≤ 20
      → queue_new a packet q ackable s ≡ done (queued a q packet ackable w s)
  unfolding queue_new queue_packet
  queue_new-eq a q packet ackable w s found free room = ground arith

  receive_result-eq :
      (status : UserTaskStatus) (ack : ServerPacketCodes) (a q : ℕ) (p : ProcessStatusPacket D)
      (st : OutgoingDataState) (w : Worker D) (s s₁ : Server Json D)
      → update_task_status p.table_id status s ≡ done s₁
      → Tracks s₁.outgoing p.table_id q st
      → q ≢ 0
      → queue_new a (create J ack p.sender_uid object) q false s₁
        ≡ done (queued a q (create J ack p.sender_uid object) false w s₁)
      → receive_result J status ack a p s
        ≡ done (queued a q (create J ack p.sender_uid object) false w s₁)
  unfolding receive_result registry_from_id get_registry_from_id
  receive_result-eq status ack a q p st w s s₁ e t nz k =
      rw (e, receive_result) (ground (arith, find_entry-Tracks t, k))

  pub parse-eq :
      (stoi : String → Option ℤ) (n code a : ℕ) (p : ProcessStatusPacket D) (s s' : Server Json D)
      → get_worker_from_uid p.sender_uid s.registry ≡ some a
      → p.packet_code ≡ pos code
      → clear_qsend code ≡ n
      → p.stats_present ≡ false
      → dispatch J n a p s ≡ done s'
      → packet_status_parse J stoi p s ≡ done s'
  unfolding packet_status_parse dispatch_code set_worker_stats
  parse-eq stoi n code a p s s' known is c none_sent d =
      rw (known, packet_status_parse) (rw is (rw c (rw d (rw (none_sent, set_worker_stats) refl))))

  -- A packet without statistics from a connected worker, with the code of an intermediate or a
  -- final result, with or without the quick-send bit, for data tracked at `q`: the call returns if
  -- the worker's lock is free, at most 20 packets are queued and the database can be reached. The data has the later of its
  -- status and that of the result, and the last packet in the worker's queue is the
  -- acknowledgement, which itself needs none.
  pub packet_status_parse-Answers :
      (stoi : String → Option ℤ) (n code a q : ℕ) (status : UserTaskStatus)
      (ack : ServerPacketCodes) (p : ProcessStatusPacket D) (st : OutgoingDataState) (w : Worker D)
      (s : Server Json D)
      → Answers n status ack
      → p.packet_code ≡ pos code
      → (code ≡ n) ⊎ (code ≡ n + 64)
      → p.stats_present ≡ false
      → get_worker_from_uid p.sender_uid s.registry ≡ some a
      → find_worker a s.registry.current_worker_list ≡ some w
      → w.worker_lock ≡ 1
      → length w.sender_queue ≤ 20
      → Tracks s.outgoing p.table_id q st
      → q ≢ 0
      → s.reachable ≡ true
      → Returns
          (λ s'.
            Tracks s'.outgoing p.table_id q
              (record st { task_status = later st.task_status status })
            × (find_worker a s'.registry.current_worker_list
                ≡ some (record w { sender_queue = w.sender_queue ++ s.next_address ∷ [] }))
            × (s'.packets s.next_address
                ≡ some (new_packet (create J ack p.sender_uid object) q false))
            × (s'.database ≡ s.database ++ status_calls st.task_status status p.table_id))
          (packet_status_parse J stoi p s)
  packet_status_parse-Answers stoi n code a q status ack p st w s r is c none_sent known found free
        room t nz up =
      let (o, eq, t') = update_task_status-Tracks p.table_id status q st s t up in
      let s₁ : Server Json D = record s {
        outgoing = o;
        database = s.database ++ status_calls st.task_status status p.table_id;
      } in
      Returns-of_eq _ (packet_status_parse J stoi p s)
        (parse-eq stoi n code a p s (queued a q (create J ack p.sender_uid object) false w s₁) known
          is (clear_qsend-Answers r c) none_sent
          (dispatch-eq n a status ack p s r
            ∙ receive_result-eq status ack a q p
                (record st { task_status = later st.task_status status }) w s s₁ eq t' nz
                (queue_new-eq a q (create J ack p.sender_uid object) false w s₁ found free room)))
        (t', find_worker-put_worker a w _ s.registry.current_worker_list found, ground arith, refl)
