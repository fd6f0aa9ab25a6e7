-- ===== src/Scheduler/Examples.antt =====
-- Thread queues, a pool and tasks on which the theorems of the scheduler apply. A task is the
-- number of times that it is pending; the world counts the starts.
use server_unit.Base.{
  ℕ, suc, ◌+◌, ◌-◌, ◌≡◌, refl, true, false, none, some, List, [], ◌∷◌, arith, length, ltb,
  if◌then◌else◌, inl, inr, fault, Returns,
}
use server_unit.Task.{job_done, job_pending, Process, low_priority, medium_priority}
use server_unit.Pool.{
  TaskPoolNode, new_task_pool, add_task, pop_task, get_task_pool_size, link_tail,
}
use server_unit.Pool.Queue.{of_queue}
use server_unit.Scheduler.{
  QueueJob, ThreadQueue, Sched, empty_slot, new_queue, empty_slots, get_total_empty_slots,
  get_quickest_queue, sched_round, init_sched, schedule_slots, schedule_one, schedule_into,
  init_job, fill_slot, get_cpu_slice, quickest_from, consider, total_wait, slot_wait,
}
use server_unit.Scheduler.Invariant.{IsValid}
use server_unit.Scheduler.Weight.{queues_weight, pool_weight}
use server_unit.Scheduler.Choice.{get_quickest_queue-fault}
use server_unit.Scheduler.Round.{IsReady, rest_of, sched_round-IsReady}
use server_unit.Scheduler.Runner.{visit_slot}
use server_unit.Scheduler.System.{System, Reach, here, next, submit, round, turn, freed_task}
use server_unit.Scheduler.Safety.{IsSafe, Reach-IsSafe}

abbrev job : ℕ → QueueJob ℕ
job t = record {
  task = t;
  cpu_slice_ms = 2000000;
  job_status = job_pending;
  job_error_handle = none;
}

-- One job and three free slots.
abbrev busy : ThreadQueue ℕ
busy = record {
  thread_id = 1;
  slots =
      record { job = some (job 2); slot_done = false } ∷ empty_slot ∷ empty_slot ∷ empty_slot ∷ [];
  thread_should_stop = false;
  total_jobs_in_queue = 1;
}

new_queue-IsValid : (i : ℕ) → IsValid {T = ℕ} (new_queue i)
unfolding empty_slots
new_queue-IsValid i = record {
  four = refl;
  counted = omega arith;
  filled = (inl refl, (inl refl, (inl refl, (inl refl, tt))));
}

busy-IsValid : IsValid busy
unfolding empty_slots
busy-IsValid = record {
  four = refl;
  counted = omega arith;
  filled = (inr (job 2, refl, omega arith), (inl refl, (inl refl, (inl refl, tt))));
}

abbrev two_queues : List (ThreadQueue ℕ)
two_queues = busy ∷ new_queue 1 ∷ []

abbrev five_queues : List (ThreadQueue ℕ)
five_queues = new_queue 0 ∷ new_queue 1 ∷ busy ∷ new_queue 3 ∷ new_queue 4 ∷ []

get_quickest_queue-fault_example : get_quickest_queue five_queues ≡ fault
get_quickest_queue-fault_example =
    get_quickest_queue-fault five_queues
      (
        new_queue-IsValid 0,
        (new_queue-IsValid 1, (busy-IsValid, (new_queue-IsValid 3, (new_queue-IsValid 4, tt)))),
      )
      (omega arith, (omega arith, (omega arith, (omega arith, (omega arith, tt))))) (omega arith)
      (omega arith)

abbrev waiting : List (TaskPoolNode ℕ)
waiting =
    record { task_item = some 3; task_type = low_priority }
    ∷ record { task_item = some 0; task_type = medium_priority }
    ∷ []

abbrev sched : Sched ℕ
sched = record { pool = of_queue waiting; queues = two_queues }

sched_round-IsReady_example :
    Returns
      (λ s'.
        IsReady 2 (rest_of (get_total_empty_slots sched.queues) waiting) s'
        × (get_total_empty_slots s'.queues ≡ get_total_empty_slots sched.queues - length waiting)
        × (queues_weight suc s'.queues
              + pool_weight suc (rest_of (get_total_empty_slots sched.queues) waiting)
            ≡ queues_weight suc sched.queues + pool_weight suc waiting))
      (sched_round sched)
sched_round-IsReady_example =
    sched_round-IsReady suc 2 waiting sched
      (record {
        pooled = refl;
        tasks = ((3, refl), ((0, refl), tt));
        threads = refl;
        queues = (busy-IsValid, (new_queue-IsValid 1, tt));
      })
      (omega arith)

-- A task `t` that is done when it has been started more than `t` times.
abbrev counting : ℕ → Process ℕ
counting t = record {
  start_proc = λ s. (if ltb s t then job_pending else job_done, suc s);
  pause_proc = none;
  end_proc = λ status s. (status, s + 100);
}

-- Two threads, a task that is taken, put into a slot, run and ended.
abbrev started : Sched ℕ
started = record { pool = of_queue []; queues = new_queue 0 ∷ new_queue 1 ∷ [] }

abbrev with_job : ThreadQueue ℕ
with_job = record (new_queue 0) {
  slots =
      record { job = some (record (job 0) { cpu_slice_ms = 2000000 }); slot_done = false }
      ∷ empty_slot
      ∷ empty_slot
      ∷ empty_slot
      ∷ [];
  total_jobs_in_queue = 1;
}

abbrev with_ended : ThreadQueue ℕ
with_ended = record with_job {
  slots =
      record { job = some (record (job 0) { job_status = job_done }); slot_done = false }
      ∷ empty_slot
      ∷ empty_slot
      ∷ empty_slot
      ∷ [];
}

abbrev with_free : ThreadQueue ℕ
with_free = record with_job {
  slots =
      record { job = some (record (job 0) { job_status = job_done }); slot_done = true }
      ∷ empty_slot
      ∷ empty_slot
      ∷ empty_slot
      ∷ [];
  total_jobs_in_queue = 0;
}

abbrev system : ThreadQueue ℕ → List (TaskPoolNode ℕ) → ℕ → List ℕ → List ℕ → System ℕ ℕ
system q waiting world submitted ended = record {
  sched = record { pool = of_queue waiting; queues = q ∷ new_queue 1 ∷ [] };
  world = world;
  submitted = submitted;
  ended = ended;
}

reached : Reach counting 2 (system with_free [] 101 (0 ∷ []) (0 ∷ []))
unfolding init_sched new_task_pool add_task sched_round get_quickest_queue init_job pop_task
    visit_slot freed_task schedule_slots schedule_one schedule_into fill_slot get_cpu_slice
    quickest_from consider total_wait slot_wait empty_slots get_total_empty_slots get_task_pool_size
    link_tail
reached =
    next
      (next
        (next
          (next
            {y = system (new_queue 0) (record { task_item = some 0; task_type = low_priority } ∷ [])
              0 (0 ∷ []) []}
            (here 0 refl) (submit 0 low_priority refl refl))
          (round {sched = record { pool = of_queue []; queues = with_job ∷ new_queue 1 ∷ [] }}
            refl))
        (turn {q' = with_ended} 0 0 5 true refl refl))
      (turn {q' = with_free} 0 0 5 true refl refl)

Reach-IsSafe_example : IsSafe counting suc 2 (system with_free [] 101 (0 ∷ []) (0 ∷ []))
Reach-IsSafe_example = Reach-IsSafe counting suc 2 (omega arith) reached
