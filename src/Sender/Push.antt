-- ===== src/Sender/Push.antt =====
-- What the job of sender_unit/sender_core.cpp does each time that it is started. A call from one
-- access of the shared objects to its end is one step; an exception that nobody catches is a fault.
use server_unit.Base.{
  ℕ, Bool, true, false, Option, none, some, List, [], ◌∷◌, ◌++◌, String, str_eq, if◌then◌else◌,
  Outcome, done, fault, ◌>>=◌,
}
use server_unit.Base.Int.{ℤ, pos, negsuc}
use server_unit.Task.{JobStatus, job_done, job_pending, low_priority, data_ready, sp_data_sent}
use server_unit.Double.{DoubleLib}
use server_unit.Json.{JsonLib, create}
use server_unit.Sink.{is_sink_empty, get_top_task_priority, pop_object}
use server_unit.Worker.{queue_packet}
use server_unit.Registry.{current_uids, get_worker_from_uid}
use server_unit.Templates.{get_update_status, reset_updated}
use server_unit.Instances
use server_unit.State.{
  UserDataTable, Server, worker_at, with_worker, queue_new, registry_from_id, update_task_status,
  assign_worker, add_outgoing,
}
use server_unit.SenderData.{is_new_worker_list_empty, is_pending_packets_list_empty}
use server_unit.Sender.Ideal.{find_ideal_worker, is_nonzero_int}
use server_unit.Sender.Packets.{user_data_to_json, instance_id}

-- Whether some name in the list differs: `compare` is nonzero for a different name.
unfoldable pub has_other : String → List String → Bool
has_other uid [] = false
has_other uid (u ∷ us) = let rest = has_other uid us in if str_eq u uid then rest else true

-- The first loop of `updateAllWorkerInstances` over the identifiers of the workers.
unfoldable pub add_workers : List String → List String → List String
unfolding has_other
add_workers [] list = list
add_workers (uid ∷ uids) list =
    let list' = if has_other uid list then list else list ++ uid ∷ [] in add_workers uids list'

module _ (J : JsonLib) (F : DoubleLib) where
  open J use {Json}
  open F use {Double}

  -- The rest of `pushUserDataToWorkerQueue`, for the worker found and the data popped.
  unfoldable pub send_user_data :
      ℕ → UserDataTable → Server Json Double → Outcome (Server Json Double)
  send_user_data a u s = do
    packet ← user_data_to_json J u
    w ← worker_at a s
    state ← registry_from_id u.user_table s
    s₁ ← queue_new a (create J sp_data_sent w.worker_uid packet) state true s
    s₂ ← assign_worker u.user_table a s₁
    update_task_status u.user_table data_ready s₂

  -- The sink is not empty at the pop, so that the priority of a default item is not used.
  unfoldable pub push_user_data : Server Json Double → Outcome (Server Json Double)
  unfolding send_user_data
  push_user_data s =
      let push = (do
        priority ← get_top_task_priority s.sender_sink
        found ← find_ideal_worker F priority s.registry
        elim found [
          | none ↦ done s
          | some a ↦ do
            popped ← pop_object s.sender_sink low_priority
            elim popped.0.data_object [
              | none ↦ fault
              | some u ↦ send_user_data a u (record s { sender_sink = popped.1 })
            ]
        ]) in
      if is_sink_empty s.sender_sink then done s else push

  -- The body of the inner loop of `pushInstanceToWorkerQueue`.
  unfoldable pub queue_instance : ℕ → Json → Server Json Double → Outcome (Server Json Double)
  queue_instance a packet s = elim (instance_id J packet) [
    | none ↦ fault
    | some id ↦ do
      s₁ ← add_outgoing id (some a) s
      w ← worker_at a s₁
      state ← registry_from_id id s₁
      s₂ ← queue_new a (create J sp_data_sent w.worker_uid packet) state true s₁
      s₃ ← assign_worker id a s₂
      s₄ ← update_task_status id data_ready s₃
      tracked ← Instances.add_worker w.worker_uid s₄.instances s₄.registry
      done (record s₄ { instances = tracked.0; registry = tracked.1 })
  ]

  unfoldable pub queue_instances : ℕ → List Json → Server Json Double → Outcome (Server Json Double)
  unfolding queue_instance
  queue_instances a [] s = done s
  queue_instances a (packet ∷ packets) s = do
    s' ← queue_instance a packet s
    queue_instances a packets s'

  -- The outer loop: each entry is erased by `erase(i--)`, whose `i++` then stands at the next one.
  unfoldable pub push_to_workers :
      List Json → List String → Server Json Double → Outcome (Server Json Double)
  unfolding queue_instances
  push_to_workers packets [] s = done (record s { new_worker_list = [] })
  push_to_workers packets (uid ∷ uids) s = do
    s' ← elim (get_worker_from_uid uid s.registry) [
      | none ↦ done s
      | some a ↦ queue_instances a packets s
    ]
    push_to_workers packets uids s'

  unfoldable pub push_instance : List String → Server Json Double → Outcome (Server Json Double)
  unfolding push_to_workers
  push_instance uids s = push_to_workers s.templates.json_list uids s

  unfoldable pub update_all_worker_instances : Server Json Double → Outcome (Server Json Double)
  unfolding push_instance add_workers
  update_all_worker_instances s = do
    s' ← push_instance (add_workers (current_uids s.registry) s.new_worker_list) s
    done (record s' { templates = reset_updated s'.templates })

  -- The loop of `pushPendingPackets`, with the worker that was found last. What `queuePacket`
  -- returns is not used.
  unfoldable pub push_packets :
      Option ℕ → List ℕ → Server Json Double → Outcome (ℤ × Server Json Double)
  push_packets found [] s = done (pos 0, s)
  push_packets none (p ∷ ps) s = fault
  push_packets (some a) (p ∷ ps) s = do
    w ← worker_at a s
    r ← queue_packet p w
    let s' = with_worker a r.1 (record s { pending_packets_list = ps })
    next ← find_ideal_worker F low_priority s'.registry
    elim next [ none ↦ done (negsuc 0, s') | some b ↦ push_packets (some b) ps s' ]

  unfoldable pub push_pending_packets : Server Json Double → Outcome (ℤ × Server Json Double)
  unfolding push_packets
  push_pending_packets s = do
    found ← find_ideal_worker F low_priority s.registry
    push_packets found s.pending_packets_list s

  -- The part of `startSenderCore` behind the pending packets.
  unfoldable pub push_new : Server Json Double → Outcome (Server Json Double)
  unfolding update_all_worker_instances push_user_data
  push_new s = do
    s' ← if get_update_status s.templates then update_all_worker_instances s else done s
    if is_new_worker_list_empty s'.new_worker_list
        then push_user_data s'
        else push_instance s'.new_worker_list s'

  unfoldable pub start_sender_core : Server Json Double → Outcome (JobStatus × Server Json Double)
  unfolding push_pending_packets push_new
  start_sender_core s = do
    r ←
        if is_pending_packets_list_empty s.pending_packets_list
        then done (pos 0, s)
        else push_pending_packets s
    if is_nonzero_int r.0
        then done (job_pending, r.1)
        else do s' ← push_new r.1; done (job_pending, s')

  abbrev pub pause_sender_core : Server Json Double → JobStatus × Server Json Double
  pause_sender_core s = (job_pending, s)

  abbrev pub end_sender_core : JobStatus → Server Json Double → JobStatus × Server Json Double
  end_sender_core status s = (job_done, s)
