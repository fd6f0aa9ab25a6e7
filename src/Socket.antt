-- ===== src/Socket.antt =====
-- socket/prevalidate_json.cpp and `session::on_read` of socket/socket.cpp: what the server does with
-- a message, up to the reply. The argument is the text of the
-- message, and the result the packet that is written; the callbacks of the stream are in Session.
pub mod Waiting
pub mod Receive
pub mod Messages
pub mod Ready
pub mod Delivery
pub mod Session
pub mod Exchange
pub mod Listener
pub mod Network
pub mod Endpoint
mod Examples
mod SessionExamples
mod DeliveryExamples
use server_unit.Base.{
  ℕ, zero, suc, ◌+◌, Bool, true, false, Option, none, some, String, if◌then◌else◌, Outcome, done,
  get_value, ◌>>=◌,
}
use server_unit.Task.{low_priority, sp_handshake, is_flag_set}
use server_unit.Json.{JsonLib, create}
use server_unit.Json.Schema.{SchemaLib, prevalidator_schema}
use server_unit.Worker.{Worker, set_quick_send_mode, reset_quick_send_mode}
use server_unit.Worker.Send.{get_queued_packet}
use server_unit.Registry.{generate_worker_uid, get_worker_from_uid}
use server_unit.Status.{int_has_bit}
use server_unit.State.{Server, worker_at, with_worker, push_receiver}
use server_unit.Validator.{init_validator}

pub record JsonPrevalidator (J : JsonLib) : Type 0 where
  pub packet : J.Json

module _ (J : JsonLib) {D : Type 0} (S : SchemaLib J D) (parse : String → Option J.Json) where
  open J use {Json, object, null, is_empty, at, get_string, get_int}
  open S use {validate}

  -- `json::parse`, none for its exception; the packet stays null then.
  unfoldable pub new_json_prevalidator : String → JsonPrevalidator J
  new_json_prevalidator out = elim (parse out) [
    | none ↦ record { packet = null }
    | some packet ↦ record { packet = packet }
  ]

  unfoldable pub validate_json : JsonPrevalidator J → Bool
  validate_json v = validate prevalidator_schema v.packet

  -- P_QSEND is bit 6.
  unfoldable pub check_quick_send_bit : JsonPrevalidator J → Outcome Bool
  check_quick_send_bit v = do n ← get_value (get_int (at v.packet "head")); done (int_has_bit 6 n)

  -- The message of a worker that is connected.
  unfoldable pub receive_known : ℕ → JsonPrevalidator J → Server Json D → Outcome (Server Json D)
  unfolding check_quick_send_bit
  receive_known a v s = do
    quick ← check_quick_send_bit v
    w ← worker_at a s
    let w' = if quick then set_quick_send_mode w else reset_quick_send_mode w
    s' ← push_receiver v.packet low_priority (with_worker a w' s)
    init_validator s'

  -- A new worker, as `draws` gives the numbers of the random device; none says that the fuel ran
  -- out.
  unfoldable pub register_worker : ℕ → (ℕ → ℕ) → D → Server Json D → Option (String × Server Json D)
  register_worker fuel draws zero_time s =
      elim (generate_worker_uid fuel draws s.next_address zero_time s.registry s.new_worker_list) [
        | none ↦ none
        | some (uid, registry, names) ↦ some (
          uid,
          record s {
            registry = registry;
            new_worker_list = names;
            next_address = s.next_address + 1;
          },
        )
      ]

  -- `getQueuedPacket` through the pointer.
  unfoldable pub take_packet : ℕ → Server Json D → Outcome (Json × Server Json D)
  take_packet a s = do
    w ← worker_at a s
    r ← get_queued_packet object s.packets w s.timeout
    done (r.0, with_worker a r.1 (record s { timeout = r.2 }))

  -- The loop that waits for a packet. `others k` is what the other threads do between the polls
  -- `k - 1` and `k`; none says that the fuel ran out.
  unfoldable pub wait_for_packet :
      ℕ
      → (ℕ → Server Json D → Server Json D)
      → ℕ
      → ℕ
      → Server Json D
      → Outcome (Option (Json × Server Json D))
  unfolding take_packet
  wait_for_packet zero others k a s = done none
  wait_for_packet (suc fuel) others k a s = do
    r ← take_packet a (others k s)
    w ← worker_at a r.1
    let again = wait_for_packet fuel others (k + 1) a r.1
    let handshake : Option (Json × Server Json D) =
        some (create J sp_handshake w.worker_uid object, r.1)
    let empty = if is_flag_set w.quick_send_mode then done handshake else again
    if is_empty r.0 then empty else done (some r)

  -- The reply to a new worker. A message that is not valid gets the empty identifier.
  unfoldable pub greet : ℕ → (ℕ → ℕ) → D → Server Json D → Option (Json × Server Json D)
  unfolding register_worker
  greet fuel draws zero_time s = elim (register_worker fuel draws zero_time s) [
    | none ↦ none
    | some (uid, s') ↦ some (create J sp_handshake uid object, s')
  ]

  -- `packet["id"]` as text for a lookup; the conversion throws for other values.
  unfoldable pub on_read :
      ℕ
      → (ℕ → ℕ)
      → D
      → (ℕ → Server Json D → Server Json D)
      → String
      → Server Json D
      → Outcome (Option (Json × Server Json D))
  unfolding new_json_prevalidator validate_json receive_known wait_for_packet greet
  on_read fuel draws zero_time others out s =
      let v = new_json_prevalidator out in
      let known = λ (a : ℕ). (do s' ← receive_known a v s; wait_for_packet fuel others 0 a s') in
      let found = (do
        uid ← get_value (get_string (at v.packet "id"))
        elim (get_worker_from_uid uid s.registry) [
          | none ↦ done (greet fuel draws zero_time s)
          | some a ↦ known a
        ]) in
      let valid =
        if is_empty (at v.packet "id") then done (greet fuel draws zero_time s) else found in
      if validate_json v then valid else done (some (create J sp_handshake "" object, s))
