-- ===== src/Sender/ThreadExamples.antt =====
-- A thread whose queue holds the sender core.
use server_unit.Base.{◌≡◌, refl, false, some, none, [], ◌∷◌, arith, done}
use server_unit.Task.{job_pending}
use server_unit.State.{Task, sender_core_task}
use server_unit.Json.Concrete.{values}
use server_unit.Scheduler.{QueueJob, ThreadQueue, empty_slot, empty_slots}
use server_unit.Sender.Examples.{natural_times, server}
use server_unit.Sender.Thread.{sender_process, exit_sched-sender}
use server_unit.Base.{ℕ, Outcome}
use server_unit.Task.{Process, low_priority}
use server_unit.Json.Concrete.{Value}
use server_unit.State.{Server}
use server_unit.Pool.{new_task_pool, add_task, pop_task, get_task_pool_size, link_tail}
use server_unit.Pool.Queue.{of_queue}
use server_unit.Scheduler.{
  new_queue, get_total_empty_slots, get_quickest_queue, sched_round, init_sched, schedule_slots,
  schedule_one, schedule_into, init_job, fill_slot, get_cpu_slice, quickest_from, consider,
  total_wait, slot_wait,
}
use server_unit.Scheduler.System.{System, Reach, here, next, submit, round}
use server_unit.Scheduler.Exit.{exit_sched}
use server_unit.Scheduler.Shutdown.{stay}

abbrev core_job : QueueJob Task
core_job = record {
  task = sender_core_task;
  cpu_slice_ms = 2000000;
  job_status = job_pending;
  job_error_handle = none;
}

abbrev core_queue : ThreadQueue Task
core_queue = record {
  thread_id = 1;
  slots =
      record { job = some core_job; slot_done = false } ∷ empty_slot ∷ empty_slot ∷ empty_slot ∷ [];
  thread_should_stop = false;
  total_jobs_in_queue = 1;
}

abbrev World : Type 0
World = Outcome (Server Value ℕ)

abbrev processes : Task → Process World
processes t = sender_process values natural_times

-- The sender core went from the pool into the first slot.
abbrev started : System Task World
started = record {
  sched = record { pool = of_queue []; queues = record core_queue { thread_id = 0 } ∷ [] };
  world = done server;
  submitted = sender_core_task ∷ [];
  ended = [];
}

abbrev submitted : System Task World
submitted = record {
  sched = record {
    pool = of_queue (record { task_item = some sender_core_task; task_type = low_priority } ∷ []);
    queues = new_queue 0 ∷ [];
  };
  world = done server;
  submitted = sender_core_task ∷ [];
  ended = [];
}

started-Reach : Reach processes 1 started
unfolding init_sched new_task_pool add_task sched_round get_quickest_queue init_job pop_task
    schedule_slots schedule_one schedule_into fill_slot get_cpu_slice quickest_from consider
    total_wait slot_wait empty_slots get_total_empty_slots get_task_pool_size link_tail
started-Reach =
    next
      (next {y = submitted} (here (done server) refl)
        (submit sender_core_task low_priority refl refl))
      (round {sched = started.sched} refl)

exit_sched-sender_example : exit_sched 9 (λ k. started.sched) ≡ none
exit_sched-sender_example =
    exit_sched-sender values natural_times processes 1 0 0 core_job 9 (λ k. started) (omega arith)
      refl refl started-Reach
      (record { queue = record core_queue { thread_id = 0 }; there = refl; held = refl })
      (λ k. stay)
