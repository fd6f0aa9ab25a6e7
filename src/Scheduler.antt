-- ===== src/Scheduler.antt =====
-- sched/task_scheduler.cpp and sched/task_scheduler.hpp: the thread queues of four job slots each
-- and the scheduler thread that moves tasks from the pool into them. `T` is the type of tasks
-- (`taskStruct *`, never NULL in the pool). The arrays `queueHead` and `qSlotDone` of a queue are
-- one list of slots. A round of `sched_task` is taken as one step: what the worker threads do
-- between two of its reads is a step before or behind it.
pub mod Runner
pub mod Progress
pub mod Finish
pub mod Invariant
pub mod Choice
pub mod Weight
pub mod Round
pub mod System
pub mod Conserved
pub mod Safety
pub mod Exit
pub mod Stuck
pub mod Shutdown
pub mod Drain
pub mod Rotation
mod Examples
use server_unit.Base.{
  ℕ, zero, suc, ◌+◌, ◌*◌, ◌-◌, ◌%◌, ◌^◌, Bool, true, false, Option, none, some, List, [], ◌∷◌,
  length, get_elem?, set, replicate, ltb, leb, ◌==◌, if◌then◌else◌, Outcome, done, fault, ◌>>=◌,
}
use server_unit.Task.{
  JobStatus, job_pending, TaskPriority, non_preemtable, high_priority, medium_priority,
  low_priority,
}
use server_unit.Pool.{TaskPool, TaskPoolNode, pop_task, get_task_pool_size}

abbrev pub queue_size : ℕ
queue_size = 4

abbrev pub max_thread : ℕ
max_thread = 10

abbrev pub nanosecs : ℕ
nanosecs = 1000000

abbrev pub int_max : ℕ
int_max = 2147483647

unfoldable pub get_cpu_slice : TaskPriority → ℕ
get_cpu_slice non_preemtable = 0
get_cpu_slice high_priority = 6 * nanosecs
get_cpu_slice medium_priority = 4 * nanosecs
get_cpu_slice low_priority = 2 * nanosecs

module _ (T : Type 0) where
  -- `queue_job`; the task is the pair `proc`, `args`. `jobErrorHandle` is not initialised.
  pub record QueueJob : Type 0 where
    pub task : T
    pub cpu_slice_ms : ℕ
    pub job_status : JobStatus
    pub job_error_handle : Option Bool

  -- `queueHead[i]` and `qSlotDone[i]`.
  pub record Slot : Type 0 where
    pub job : Option QueueJob
    pub slot_done : Bool

  -- `totalJobsInQueue` is a `uint8_t`.
  pub record ThreadQueue : Type 0 where
    pub thread_id : ℕ
    pub slots : List Slot
    pub thread_should_stop : Bool
    pub total_jobs_in_queue : ℕ

  -- The pool and `list[0]` to `list[allocatedThreads - 1]`.
  pub record Sched : Type 0 where
    pub pool : TaskPool T
    pub queues : List ThreadQueue

module _ {T : Type 0} where
  abbrev pub empty_slot : Slot T
  empty_slot = record { job = none; slot_done = true }

  abbrev pub new_queue : ℕ → ThreadQueue T
  new_queue i = record {
    thread_id = i;
    slots = replicate queue_size empty_slot;
    thread_should_stop = false;
    total_jobs_in_queue = 0;
  }

  -- The loop of `init_sched`, with `n` queues left to make; `list` has ten places.
  unfoldable pub init_queues : ℕ → ℕ → Outcome (List (ThreadQueue T))
  init_queues zero i = done []
  init_queues (suc n) i =
      let rest = (do qs ← init_queues n (i + 1); done (new_queue i ∷ qs)) in
      if ltb i max_thread then rest else fault

  unfoldable pub init_sched : ℕ → TaskPool T → Outcome (Sched T)
  unfolding init_queues
  init_sched threads pool = do
    queues ← init_queues threads 0
    done (record { pool = pool; queues = queues })

  unfoldable pub empty_slots : List (Slot T) → ℕ
  empty_slots [] = 0
  empty_slots (s ∷ ss) = (if s.slot_done then 1 else 0) + empty_slots ss

  unfoldable pub get_total_empty_slots : List (ThreadQueue T) → ℕ
  get_total_empty_slots [] = 0
  get_total_empty_slots (q ∷ qs) = empty_slots q.slots + get_total_empty_slots qs

  -- What one round of the inner loop of `get_quickest_queue` adds for the queue at index `i`: the
  -- loop reads `qSlotDone[i]` and `queueHead[i]`, whatever `j` is. The arrays have four places.
  unfoldable pub slot_wait : ThreadQueue T → ℕ → Outcome ℕ
  slot_wait q i = elim (get_elem? q.slots i) [
    | none ↦ fault
    | some s ↦ if s.slot_done then done 0 else elim s.job [
      | none ↦ fault
      | some job ↦ done (if job.cpu_slice_ms == 0 then 999 else job.cpu_slice_ms)
    ]
  ]

  -- The inner loop, with `n` of its `allocatedThreads` rounds left. The sum is a `uint64_t`.
  unfoldable pub total_wait : ℕ → ThreadQueue T → ℕ → ℕ → Outcome ℕ
  total_wait zero q i acc = done acc
  total_wait (suc n) q i acc = do w ← slot_wait q i; total_wait n q i ((acc + w) % 2 ^ 64)

  -- The body of the outer loop: the new `threadID` and `lowestWaitTime`.
  unfoldable pub consider : ℕ → ThreadQueue T → ℕ → ℕ × ℕ → Outcome (ℕ × ℕ)
  consider allocated q i (thread_id, lowest) =
      if leb queue_size q.total_jobs_in_queue then done (thread_id, lowest) else do
        w ← total_wait allocated q i 0
        done (if ltb w lowest then (i, w) else (thread_id, lowest))

  unfoldable pub quickest_from : ℕ → List (ThreadQueue T) → ℕ → ℕ × ℕ → Outcome (ℕ × ℕ)
  quickest_from allocated [] i best = done best
  quickest_from allocated (q ∷ qs) i best = do
    best' ← consider allocated q i best
    quickest_from allocated qs (i + 1) best'

  -- The index of the queue that `get_quickest_queue` returns.
  unfoldable pub get_quickest_queue : List (ThreadQueue T) → Outcome ℕ
  get_quickest_queue qs = do best ← quickest_from (length qs) qs 0 (0, int_max); done best.0

  -- A node with no task is a null pointer that `init_job` follows.
  unfoldable pub init_job : TaskPoolNode T → Outcome (QueueJob T)
  init_job node = elim node.task_item [
    | none ↦ fault
    | some task ↦ done (record {
      task = task;
      cpu_slice_ms = get_cpu_slice node.task_type;
      job_status = job_pending;
      job_error_handle = none;
    })
  ]

  -- The first free slot gets the job.
  unfoldable pub fill_slot : QueueJob T → List (Slot T) → List (Slot T)
  fill_slot job [] = []
  fill_slot job (s ∷ ss) =
      if s.slot_done
      then record { job = some job; slot_done = false } ∷ ss
      else s ∷ fill_slot job ss

  -- The scan of the chosen queue; with no free slot nothing is popped.
  unfoldable pub schedule_into : Sched T → ℕ → ThreadQueue T → Outcome (Sched T)
  schedule_into s i q = if empty_slots q.slots == 0 then done s else do
    r ← pop_task s.pool
    job ← init_job r.0
    let q' : ThreadQueue T = record q {
      slots = fill_slot job q.slots;
      total_jobs_in_queue = (q.total_jobs_in_queue + 1) % 256;
    }
    done (record { pool = r.1; queues = set s.queues i q' })

  -- One turn of the loop over the free slots, when the pool is not empty.
  unfoldable pub schedule_one : Sched T → Outcome (Sched T)
  schedule_one s = do
    i ← get_quickest_queue s.queues
    elim (get_elem? s.queues i) [ none ↦ fault | some q ↦ schedule_into s i q ]

  -- The loop, with `n` turns left; it breaks at an empty pool.
  unfoldable pub schedule_slots : ℕ → Sched T → Outcome (Sched T)
  schedule_slots zero s = done s
  schedule_slots (suc n) s =
      let rest = (do s' ← schedule_one s; schedule_slots n s') in
      if get_task_pool_size s.pool == 0 then done s else rest

  -- From one wait for the condition to the next.
  unfoldable pub sched_round : Sched T → Outcome (Sched T)
  sched_round s = schedule_slots (get_total_empty_slots s.queues) s

  -- `exit_sched` waits while this holds.
  unfoldable pub has_jobs : Sched T → Bool
  has_jobs s =
      if get_total_empty_slots s.queues == length s.queues * queue_size then false else true
