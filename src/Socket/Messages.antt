-- ===== src/Socket/Messages.antt =====
-- What a message from a worker changes, and the reply to it.
use mathlib.Core.List.{Nodup, Perm}
use server_unit.Base.{
  ℕ, suc, ◌+◌, ◌<◌, ◌≤◌, ◌≡◌, refl, ◌∙◌, ap, subst, Bool, true, false, Option, none, some, List, [],
  ◌∷◌, ◌++◌, String, length, get_value, ◌>>=◌, Outcome, done,
}
use server_unit.Base.Int.{ℤ}
use server_unit.Task.{sp_handshake, low_priority}
use server_unit.Json.{JsonLib, create}
use server_unit.Json.Schema.{SchemaLib, prevalidator_schema}
use server_unit.Sink.{SinkItem, new_item}
use server_unit.Sink.Order.{HasRoom}
use server_unit.Worker.{Worker}
use server_unit.Worker.Delivery.{IsIdle}
use server_unit.Registry.{get_worker_from_uid, to_string}
use server_unit.Registry.Identity.{IsUnused, all_uids, generate_worker_uid-unused}
use server_unit.Status.{int_has_bit}
use server_unit.State.{Server, with_worker}
use server_unit.Socket.{
  JsonPrevalidator, new_json_prevalidator, validate_json, receive_known, register_worker, greet,
  wait_for_packet, on_read,
}
use server_unit.Socket.Waiting.{
  Stands, Stands-with_worker, wait_for_packet-idle, Arrives, wait_for_packet-Arrives,
}
use server_unit.Socket.Receive.{PoolHasRoom, in_mode, Received, queued, receive_known-eq}

module _ (J : JsonLib) {D : Type 0} (S : SchemaLib J D) (parse : String → Option J.Json) where
  open J use {Json, object, is_empty, at, get_string, get_int}
  open S use {validate}

  -- A message that parses to a packet which passes the checks, with an identifier that is not
  -- empty.
  pub record IsMessage (out uid : String) (packet : Json) : Type 0 where
    pub parsed : parse out ≡ some packet
    pub valid : validate prevalidator_schema packet ≡ true
    pub present : is_empty (at packet "id") ≡ false
    pub named : get_string (at packet "id") ≡ some uid

  parsed-eq :
      (out : String) (packet : Json)
      → parse out ≡ some packet
      → new_json_prevalidator J S parse out ≡ record { packet = packet }
  unfolding new_json_prevalidator
  parsed-eq out packet e = rw (e, new_json_prevalidator) refl

  module _ (draws : ℕ → ℕ) (zero_time : D) (others : ℕ → Server Json D → Server Json D)
      (out : String) (s : Server Json D) where
    abbrev pub reply : ℕ → Outcome (Option (Json × Server Json D))
    reply fuel = on_read J S parse fuel draws zero_time others out s

    -- A message that does not parse gets a handshake with the empty identifier and changes nothing.
    pub on_read-unparsed :
        (fuel : ℕ)
        → parse out ≡ none
        → reply fuel ≡ done (some (create J sp_handshake "" object, s))
    unfolding on_read new_json_prevalidator validate_json
    on_read-unparsed fuel e =
        rw (e, new_json_prevalidator) (rw (S.validate-null prevalidator_schema) refl)

    on_read-known :
        (fuel a : ℕ) (uid : String) (packet : Json) (s' : Server Json D)
        → IsMessage out uid packet
        → get_worker_from_uid uid s.registry ≡ some a
        → receive_known J S parse a (new_json_prevalidator J S parse out) s ≡ done s'
        → reply fuel ≡ wait_for_packet J S parse fuel others 0 a s'
    unfolding on_read new_json_prevalidator validate_json
    on_read-known fuel a uid packet s' m known r =
        rw (m.parsed, new_json_prevalidator)
          (rw m.valid (rw m.present (rw m.named (rw (known, ◌>>=◌, get_value) (rw r refl)))))

    on_read-unknown :
        (fuel : ℕ) (uid : String) (packet : Json)
        → IsMessage out uid packet
        → get_worker_from_uid uid s.registry ≡ none
        → reply fuel ≡ done (greet J S parse fuel draws zero_time s)
    unfolding on_read new_json_prevalidator validate_json
    on_read-unknown fuel uid packet m known =
        rw (m.parsed, new_json_prevalidator)
          (rw m.valid (rw m.present (rw m.named (rw (known, ◌>>=◌, get_value) refl))))

    -- A message with an identifier that no connected worker has, at a moment when the first number
    -- drawn is unused: the reply is a handshake with that number for the identifier, which belongs
    -- to a new worker from then on and is put behind the new workers of the sender core. Distinct
    -- identifiers stay distinct.
    pub on_read-greets :
        (fuel : ℕ) (uid : String) (packet : Json)
        → IsMessage out uid packet
        → get_worker_from_uid uid s.registry ≡ none
        → IsUnused (to_string (draws 0)) s.registry
        → Nodup (all_uids s.registry)
        → (s' : Server Json D) × (reply (suc fuel)
            ≡ done (some (create J sp_handshake (to_string (draws 0)) object, s')))
          × (get_worker_from_uid (to_string (draws 0)) s'.registry ≡ some s.next_address)
          × (s'.new_worker_list ≡ s.new_worker_list ++ to_string (draws 0) ∷ [])
          × Nodup (all_uids s'.registry)
    unfolding greet register_worker
    on_read-greets fuel uid packet m unknown u d =
        let (r, e, found, _, d') =
          generate_worker_uid-unused fuel draws s.next_address zero_time s.registry
            s.new_worker_list u d in
        (
          record s {
            registry = r;
            new_worker_list = s.new_worker_list ++ to_string (draws 0) ∷ [];
            next_address = s.next_address + 1;
          },
          on_read-unknown (suc fuel) uid packet m unknown ∙ rw (e, greet, register_worker) refl,
          found,
          refl,
          d',
        )

    module _ (a : ℕ) (n : ℤ) (uid : String) (packet : Json) (w : Worker D)
        (m : IsMessage out uid packet) (known : get_worker_from_uid uid s.registry ≡ some a)
        (st : Stands a w s) (code : get_int (at packet "head") ≡ some n)
        (room : HasRoom s.receiver_sink) (pool : PoolHasRoom s.task_pool) where
      pub on_read-queued :
          (fuel : ℕ)
          → (items : List (SinkItem Json)) × (reply fuel
              ≡ wait_for_packet J S parse fuel others 0 a
                  (queued a (in_mode (int_has_bit 6 n) w) items s))
            × Perm items (
                new_item packet low_priority (s.memory s.next_address).1
                ∷ s.receiver_sink.sink_item_list)
      on_read-queued fuel =
          let v : JsonPrevalidator J = record { packet = packet } in
          let (items, received, perm) = receive_known-eq J S parse a n v w s code st room pool in
          (
            items,
            on_read-known fuel a uid packet (queued a (in_mode (int_has_bit 6 n) w) items s) m known
                (ap (λ (x : JsonPrevalidator J). receive_known J S parse a x s)
                    (parsed-eq out packet m.parsed)
                  ∙ received),
            perm,
          )

      on_read-waits :
          (fuel : ℕ)
          → (s' : Server Json D) × (reply fuel ≡ wait_for_packet J S parse fuel others 0 a s')
            × Received packet a (in_mode (int_has_bit 6 n) w) s s'
      unfolding with_worker
      on_read-waits fuel =
          let w' = in_mode (int_has_bit 6 n) w in
          let (items, e, perm) = on_read-queued fuel in
          (queued a w' items s, e, (Stands-with_worker a w w' s st, perm, refl))

      module _ (idle : IsIdle w) (empty : w.sender_queue ≡ []) where
        -- A valid message from a connected worker whose lock is free and re-send flag off, with no packet
        -- queued for it, while the timer is free and the receiver sink and the task pool are
        -- unlocked and have room: it is put into the receiver sink, and a validator behind the tasks
        -- that wait. If its code has the quick-send bit, and the other threads leave the worker and
        -- the timer as they are before the first poll, the reply is a handshake, after that poll.
        pub on_read-quick :
            (fuel : ℕ)
            → int_has_bit 6 n ≡ true
            → ((t : Server Json D)
                → Stands a (in_mode true w) t
                → Stands a (in_mode true w) (others 0 t))
            → (s' : Server Json D) × Received packet a (in_mode true w) s s'
              × (reply (suc fuel)
                  ≡ done (
                      some (
                        create J sp_handshake w.worker_uid object,
                        with_worker a (in_mode true w) (others 0 s'),
                      )))
        on_read-quick fuel bit quiet =
            let (s', e, waits) = on_read-waits (suc fuel) in
            let waits' = subst (λ (q : Bool). Received packet a (in_mode q w) s s') bit waits in
            (
              s',
              waits',
              e
                  ∙ wait_for_packet-idle J S parse others a (in_mode true w) fuel 0 s' true
                      (quiet s' waits'.0) (record { free = idle.free; fresh = idle.fresh }) empty
                      refl,
            )

        -- A valid message without the quick-send bit from a connected worker whose lock is free and
        -- re-send flag off, with no packet queued for it, while the timer is free and the receiver
        -- sink and the task pool are unlocked and have room: it is put into the receiver sink, and a
        -- validator behind the tasks that wait. If the other threads leave the worker and the timer
        -- as they are until they queue a packet `j` that is not empty before the `k`-th poll, and at
        -- most ten packets wait to be acknowledged, the reply is that packet.
        pub on_read-answers :
            (fuel k : ℕ) (j : Json)
            → int_has_bit 6 n ≡ false
            → length w.ack_pending_queue ≤ 10
            → is_empty j ≡ false
            → Arrives J S parse others a (in_mode false w) j k 0
            → k < fuel
            → (s' t : Server Json D) × Received packet a (in_mode false w) s s'
              × (reply fuel ≡ done (some (j, t)))
        on_read-answers fuel k j bit unacked full arrives enough =
            let (s', e, waits) = on_read-waits fuel in
            let waits' = subst (λ (q : Bool). Received packet a (in_mode q w) s s') bit waits in
            let (t, e') =
              wait_for_packet-Arrives J S parse others a (in_mode false w) fuel k 0 s' j waits'.0
                (record { free = idle.free; fresh = idle.fresh }) empty unacked refl full arrives
                enough in
            (s', t, waits', e ∙ e')
