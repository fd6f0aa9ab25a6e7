-- ===== src/Status/Acknowledged.antt =====
-- What a worker's acknowledgement of user data changes.
use server_unit.Base.{
  ℕ, ◌≡◌, ◌≢◌, ◌⊎◌, inl, inr, refl, true, false, Option, none, some, List, ◌∷◌, ◌++◌, String, arith,
  All, remove_all, contains, contains-remove_all, done, Returns, Returns-of_eq, update,
}
use server_unit.Base.Int.{ℤ, pos}
use server_unit.Json.{JsonLib}
use server_unit.Worker.{Worker}
use server_unit.Worker.Acknowledged.{Tested, match_ackable_packet-eq}
use server_unit.Registry.{get_worker_from_uid, find_worker}
use server_unit.Templates.{has_name, names, is_matching_found}
use server_unit.State.{Server, worker_at, with_worker}
use server_unit.State.Tracked.{find_worker-put_worker}
use server_unit.Status.{
  ProcessStatusPacket, clear_qsend, track_template, acknowledge_data, dispatch, packet_status_parse,
}
use server_unit.Status.Results.{parse-eq}

clear_qsend-ack : (code : ℕ) → (code ≡ 4) ⊎ (code ≡ 68) → clear_qsend code ≡ 4
unfolding clear_qsend
clear_qsend-ack code (inl e) = rw e refl
clear_qsend-ack code (inr e) = rw e refl

module _ (J : JsonLib) {D : Type 0} where
  open J use {Json}

  -- The server when the packet at `x` has been acknowledged.
  abbrev settled : ℕ → ℕ → List ℕ → Worker D → Server Json D → Server Json D
  settled a x left w s =
      with_worker a (record w { ack_pending_queue = left })
        (record s {
          packets = update s.packets x none;
          timeout = record s.timeout { timed_packets = remove_all x s.timeout.timed_packets };
        })

  track_template-other :
      (uid id : String) (s : Server Json D)
      → has_name id (names s.templates.template_list) ≡ false
      → s.templates.template_lock ≡ 1
      → track_template J uid id s ≡ done s
  unfolding track_template is_matching_found
  track_template-other uid id s other lock = ground arith

  acknowledge_data-eq :
      (id : String) (a x : ℕ) (before after : List ℕ) (w : Worker D) (s : Server Json D)
      → find_worker a s.registry.current_worker_list ≡ some w
      → w.worker_lock ≡ 1
      → s.timeout.timeout_list_lock ≡ 1
      → w.ack_pending_queue ≡ before ++ x ∷ after
      → All (Tested s.packets s.outgoing.states false id) before
      → Tested s.packets s.outgoing.states true id x
      → has_name id (names s.templates.template_list) ≡ false
      → s.templates.template_lock ≡ 1
      → acknowledge_data J a id s ≡ done (settled a x (before ++ after) w s)
  unfolding acknowledge_data worker_at with_worker
  acknowledge_data-eq id a x before after w s found free timer listed h f other lock =
      rw (found, acknowledge_data, worker_at)
        (rw
          (match_ackable_packet-eq s.packets s.outgoing.states id w s.timeout before after x free
            timer listed h f)
          (track_template-other w.worker_uid id (settled a x (before ++ after) w s) other lock))

  -- A packet without statistics from a connected worker, with the code of an acknowledgement, with
  -- or without the quick-send bit, for data whose identifier is not that of a template: the call
  -- returns if the locks of the worker, the timer and the templates are free. The first packet of
  -- the worker that waits for the acknowledgement of this data leaves its queue, is deleted and is
  -- no longer timed; packets at other addresses, the data under way with its status, the templates and
  -- the list of the workers that wait for templates stay as they were.
  pub packet_status_parse-acknowledges :
      (stoi : String → Option ℤ) (code a x y : ℕ) (before after : List ℕ)
      (p : ProcessStatusPacket D) (w : Worker D) (s : Server Json D)
      → p.packet_code ≡ pos code
      → (code ≡ 4) ⊎ (code ≡ 68)
      → p.stats_present ≡ false
      → get_worker_from_uid p.sender_uid s.registry ≡ some a
      → find_worker a s.registry.current_worker_list ≡ some w
      → w.worker_lock ≡ 1
      → s.timeout.timeout_list_lock ≡ 1
      → s.templates.template_lock ≡ 1
      → w.ack_pending_queue ≡ before ++ x ∷ after
      → All (Tested s.packets s.outgoing.states false p.table_id) before
      → Tested s.packets s.outgoing.states true p.table_id x
      → has_name p.table_id (names s.templates.template_list) ≡ false
      → y ≢ x
      → Returns
          (λ s'.
            (find_worker a s'.registry.current_worker_list
              ≡ some (record w { ack_pending_queue = before ++ after }))
            × (s'.packets x ≡ none)
            × (s'.packets y ≡ s.packets y)
            × (contains x s'.timeout.timed_packets ≡ false)
            × (s'.outgoing ≡ s.outgoing)
            × (s'.templates ≡ s.templates)
            × (s'.instances ≡ s.instances))
          (packet_status_parse J stoi p s)
  unfolding dispatch with_worker
  packet_status_parse-acknowledges stoi code a x y before after p w s is c none_sent known found
        free timer lock listed h f other ne =
      Returns-of_eq _ (packet_status_parse J stoi p s)
        (parse-eq J stoi 4 code a p s (settled a x (before ++ after) w s) known is
          (clear_qsend-ack code c) none_sent
          (acknowledge_data-eq p.table_id a x before after w s found free timer listed h f other
            lock))
        (
          find_worker-put_worker a w _ s.registry.current_worker_list found,
          ground arith,
          ground arith,
          contains-remove_all x s.timeout.timed_packets,
          refl,
          refl,
          refl,
        )
