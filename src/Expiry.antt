-- ===== src/Expiry.antt =====
-- `Timeout::execute` of sched/timeout.cpp, which services/timeout_timer.cpp calls in turns: what
-- happens to the packets that wait for an acknowledgement. A call is one step.
use server_unit.Base.{
  ℕ, ◌-◌, Bool, true, false, Option, none, some, List, [], ◌∷◌, ◌++◌, ◌==◌, if◌then◌else◌, Outcome,
  done, fault, ◌>>=◌, sem_wait, sem_post, Heap, load, update,
}
use server_unit.Task.{set_flag, reset_flag, is_flag_set, data_final, status_code}
use server_unit.Timeout.{Timeout, is_worker_registered, pop_packet}
use server_unit.Outgoing
use server_unit.Worker.{OutPacket, Worker, check_in, is_checked_in, push_to_front}
use server_unit.Registry.{delete_worker}
use server_unit.SenderData.{add_all}
use server_unit.State.{Server, worker_at, with_worker}
pub mod Locked
pub mod Rounds
pub mod Attended
mod Examples

-- `OutPacket::checkOut` and `OutPacket::isCheckedIn`.
abbrev pub check_out_packet : {J : Type 0} → OutPacket J → OutPacket J
check_out_packet o = record o { status = reset_flag o.status }

abbrev pub is_packet_checked_in : {J : Type 0} → OutPacket J → Bool
is_packet_checked_in o = is_flag_set o.status

module _ {J D : Type 0} where
  -- A packet that was not acknowledged is the next that its worker gets.
  unfoldable pub send_again : ℕ → ℕ → Server J D → Outcome (Bool × Server J D)
  send_again p a s = do w ← worker_at a s; w' ← push_to_front p w; done (true, with_worker a w' s)

  -- A packet that is not checked in, of the worker `a`: whether the loop goes on, and the server. A
  -- worker at its second strike is deleted, and its packets are to be handed over.
  unfoldable pub strike : ℕ → ℕ → Server J D → Outcome (Bool × Server J D)
  unfolding send_again add_all
  strike p a s = do
    w ← worker_at a s
    let struck = is_worker_registered a s.timeout
    let s' : Server J D = record s { timeout = struck.1 }
    let drop = (do
      r ← delete_worker a s'.registry
      done (
        false,
        record s' { registry = r.1; pending_packets_list = add_all r.0 s'.pending_packets_list },
      ))
    let late = if struck.0 then drop else send_again p a s'
    if is_checked_in w then send_again p a s else late

  -- `OutPacket::checkIn`, which nothing calls.
  unfoldable pub check_in_packet : ℕ → Server J D → Outcome (Server J D)
  check_in_packet p s = do
    o ← load s.packets p
    d ← load s.outgoing.states o.out_data
    w ← worker_at d.worker s
    let seen = record o { status = set_flag o.status }
    done (record (with_worker d.worker (check_in w) s) { packets = update s.packets p (some seen) })

  -- The body of the loop. For final data `popPacket` waits for the lock that the loop itself holds.
  -- If it returned it would have erased the entry that the iterator of the loop stands at: the step
  -- of the iterator behind the two deletions is the fault.
  unfoldable pub expire_packet : ℕ → Server J D → Outcome (Bool × Server J D)
  unfolding strike
  expire_packet p s = do
    o ← load s.packets p
    d ← load s.outgoing.states o.out_data
    let pop = (do t ← pop_packet p s.timeout; r ← Outgoing.delete d.id s.outgoing; fault)
    let reset = done (true, record s { packets = update s.packets p (some (check_out_packet o)) })
    let checked_in = if status_code d.task_status == status_code data_final then pop else reset
    if is_packet_checked_in o then checked_in else strike p d.worker s

  unfoldable pub expire_packets : List ℕ → Server J D → Outcome (Bool × Server J D)
  unfolding expire_packet
  expire_packets [] s = done (true, s)
  expire_packets (p ∷ ps) s = do
    r ← expire_packet p s
    let rest = expire_packets ps r.1
    if r.0 then rest else done r

  -- The lock is posted at the end of the loop only.
  unfoldable pub execute : Server J D → Outcome (Server J D)
  unfolding expire_packets
  execute s = do
    lock ← sem_wait s.timeout.timeout_list_lock
    r ←
        expire_packets s.timeout.timed_packets
          (record s { timeout = record s.timeout { timeout_list_lock = lock } })
    let s' = r.1
    let freed : Server J D = record s' {
      timeout = record s'.timeout { timeout_list_lock = sem_post s'.timeout.timeout_list_lock };
    }
    done (if r.0 then freed else s')
