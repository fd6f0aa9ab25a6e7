-- ===== src/Status/Frame.antt =====
-- What a status packet leaves alone.
use server_unit.Base.{
  ℕ, ◌≡◌, refl, ◌∙◌, Bool, false, Option, String, ◌==◌, Outcome, done, ◌>>=◌, WhenDone,
  WhenDone-bind, WhenDone-then, WhenDone-if, WhenDone-option, WhenDone-weaken,
}
use server_unit.Base.Int.{ℤ, pos, negsuc}
use server_unit.Task.{
  ServerPacketCodes, UserTaskStatus, sp_intr_ack, sp_fres_ack, data_inter, data_final, data_error,
}
use server_unit.Json.{JsonLib, create}
use server_unit.Worker.Ack.{match_ackable_packet}
use server_unit.Worker.{Worker, queue_packet}
use server_unit.Registry.{get_worker_from_uid}
use server_unit.Outgoing
use server_unit.Templates.{is_matching_found}
use server_unit.Instances
use server_unit.State.{
  Server, worker_at, with_worker, queue_new, registry_from_id, update_task_status,
}
use server_unit.Status.{
  ProcessStatusPacket, track_template, acknowledge_data, receive_result, receive_error, dispatch,
  dispatch_code, set_worker_stats, packet_status_parse, adv_tokenizer, clear_qsend,
}

module _ {J D : Type 0} where
  -- The sinks, the task pool and the files are as they were.
  abbrev pub SameStages : Server J D → Server J D → Type 0
  SameStages s s' =
      (s'.receiver_sink ≡ s.receiver_sink)
      × (s'.sender_sink ≡ s.sender_sink)
      × (s'.task_pool ≡ s.task_pool)
      × (s'.files ≡ s.files)

  same : (s : Server J D) → SameStages s s
  same s = (refl, refl, refl, refl)

  trans : (s t u : Server J D) → SameStages s t → SameStages t u → SameStages s u
  trans s t u (a, b, c, d) (a', b', c', d') = (a' ∙ a, b' ∙ b, c' ∙ c, d' ∙ d)

  with_worker-same : (a : ℕ) (w : Worker D) (s : Server J D) → SameStages s (with_worker a w s)
  unfolding with_worker
  with_worker-same a w s = (refl, refl, refl, refl)

  update_task_status-same :
      (id : String) (status : UserTaskStatus) (s : Server J D)
      → WhenDone (SameStages s) (update_task_status id status s)
  unfolding update_task_status
  update_task_status-same id status s =
      WhenDone-then (SameStages s) (Outgoing.update_task_status s.reachable id status s.outgoing) _
        (λ u. same s)

  queue_new-same :
      (a : ℕ) (packet : J) (q : ℕ) (ackable : Bool) (s : Server J D)
      → WhenDone (SameStages s) (queue_new a packet q ackable s)
  unfolding queue_new with_worker
  queue_new-same a packet q ackable s =
      WhenDone-then (SameStages s) (worker_at a s) _
        (λ w. WhenDone-then (SameStages s) (queue_packet s.next_address w) _ (λ r. same s))

  -- A call, and then one more.
  then_same :
      (s : Server J D) (m : Outcome (Server J D)) (f : Server J D → Outcome (Server J D))
      → WhenDone (SameStages s) m
      → ((t : Server J D) → WhenDone (SameStages t) (f t))
      → WhenDone (SameStages s) (m >>= f)
  then_same s m f h k =
      WhenDone-bind (SameStages s) (SameStages s) m f h (λ t e.
        WhenDone-weaken (SameStages t) (SameStages s) (f t) (k t) (λ u e'. trans s t u e e'))

module _ (J : JsonLib) {D : Type 0} where
  open J use {Json, object}

  track_template-same :
      (uid id : String) (s : Server Json D) → WhenDone (SameStages s) (track_template J uid id s)
  unfolding track_template
  track_template-same uid id s =
      WhenDone-then (SameStages s) (is_matching_found id s.templates) _ (λ found.
        let s' : Server Json D = record s { templates = found.1 } in
        WhenDone-if (SameStages s) found.0 _ _
          (WhenDone-then (SameStages s) (Instances.update_worker uid id s'.instances s'.registry) _
            (λ r. same s))
          (same s))

  acknowledge_data-same :
      (a : ℕ) (id : String) (s : Server Json D)
      → WhenDone (SameStages s) (acknowledge_data J a id s)
  unfolding acknowledge_data with_worker
  acknowledge_data-same a id s = WhenDone-then (SameStages s) (worker_at a s) _ (λ w.
      WhenDone-then (SameStages s) (match_ackable_packet s.packets s.outgoing.states id w s.timeout)
        _
        (λ m.
          let s' = with_worker a m.worker (record s { packets = m.packets; timeout = m.timeout }) in
          WhenDone-if (SameStages s) m.matched _ _ (track_template-same w.worker_uid id s')
            (same s)))

  receive_result-same :
      (status : UserTaskStatus) (ack : ServerPacketCodes) (a : ℕ) (p : ProcessStatusPacket D)
      (s : Server Json D)
      → WhenDone (SameStages s) (receive_result J status ack a p s)
  unfolding receive_result
  receive_result-same status ack a p s =
      then_same s (update_task_status p.table_id status s) _
        (update_task_status-same p.table_id status s)
        (λ t. WhenDone-then (SameStages t) (registry_from_id p.table_id t) _ (λ state.
          WhenDone-if (SameStages t) (state == 0) _ _ (same t)
            (queue_new-same a (create J ack p.sender_uid object) state false t)))

  report-same :
      (text id : String) (s : Server Json D)
      → WhenDone (SameStages s) (elim text [
        | String.[] ↦ done s
        | String.◌∷◌ c rest ↦ update_task_status id data_error s
      ])
  report-same String.[] id s = same s
  report-same (String.◌∷◌ c rest) id s = update_task_status-same id data_error s

  receive_error-same :
      (p : ProcessStatusPacket D) (s : Server Json D)
      → WhenDone (SameStages s) (receive_error J p s)
  unfolding receive_error
  receive_error-same p s = report-same p.error_string p.table_id s

  dispatch-same :
      (n a : ℕ) (p : ProcessStatusPacket D) (s : Server Json D)
      → WhenDone (SameStages s) (dispatch J n a p s)
  unfolding dispatch
  dispatch-same n a p s =
      let Q = SameStages s in
      WhenDone-if Q (n == 1) _ _
        (WhenDone-then Q (worker_at a s) _ (λ w. track_template-same w.worker_uid p.table_id s))
        (WhenDone-if Q (n == 4) _ _ (acknowledge_data-same a p.table_id s) (
          WhenDone-if Q (n == 8) _ _ (receive_result-same data_inter sp_intr_ack a p s) (
            WhenDone-if Q (n == 16) _ _ (receive_result-same data_final sp_fres_ack a p s)
              (WhenDone-if Q (n == 32) _ _ (receive_error-same p s) (same s)))))

  dispatch_code-same :
      (n : ℤ) (a : ℕ) (p : ProcessStatusPacket D) (s : Server Json D)
      → WhenDone (SameStages s) (dispatch_code J n a p s)
  unfolding dispatch_code
  dispatch_code-same (pos n) a p s = dispatch-same (clear_qsend n) a p s
  dispatch_code-same (negsuc n) a p s = same s

  set_worker_stats-same :
      (stoi : String → Option ℤ) (a : ℕ) (p : ProcessStatusPacket D) (s : Server Json D)
      → WhenDone (SameStages s) (set_worker_stats J stoi a p s)
  unfolding set_worker_stats with_worker
  set_worker_stats-same stoi a p s =
      WhenDone-if (SameStages s) p.stats_present _ _
        (WhenDone-then (SameStages s) (adv_tokenizer stoi p.vector_string) _
          (λ tasks. WhenDone-then (SameStages s) (worker_at a s) _ (λ w. same s)))
        (same s)

  -- A status packet, if the call returns, leaves the sinks, the task pool and the files alone.
  pub packet_status_parse-same :
      (stoi : String → Option ℤ) (p : ProcessStatusPacket D) (s : Server Json D)
      → WhenDone (SameStages s) (packet_status_parse J stoi p s)
  unfolding packet_status_parse
  packet_status_parse-same stoi p s =
      WhenDone-option (SameStages s) (get_worker_from_uid p.sender_uid s.registry) _ _ (same s)
        (λ a.
          then_same s (dispatch_code J p.packet_code a p s) _
            (dispatch_code-same p.packet_code a p s) (λ t. set_worker_stats-same stoi a p t))
