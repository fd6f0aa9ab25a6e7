-- ===== src/Scheduler/Runner.antt =====
-- `thread_task` of sched/task_scheduler.cpp: a worker thread that runs the jobs of its queue in
-- turn. `S` stands for all that the functions of a job reach, and `proc` gives the functions of a
-- task. The inner loop takes fuel; none says that the fuel ran out.
use mathlib.Core.Option
use server_unit.Base.{
  ℕ, zero, suc, ◌+◌, ◌%◌, Bool, true, false, Option, none, some, get_elem?, set, ◌==◌,
  if◌then◌else◌, ◌||◌, Outcome, done, fault, ◌>>=◌,
}
use server_unit.Task.{JobStatus, job_done, job_pending, job_failed, job_finished, Process}
use server_unit.Scheduler.{QueueJob, ThreadQueue, queue_size}

-- `job_timer`; `init_timer` leaves the slice of a job with no pause function unset.
pub record JobTimer : Type 0 where
  pub allowed_cpu_slice : Option ℕ
  pub job_should_pause : Bool

-- What the timer thread writes when the slice is over.
unfoldable pub start_job_timer : JobTimer → JobTimer
start_job_timer t = record t { job_should_pause = false }

abbrev pub is_ended : JobStatus → Bool
is_ended job_done = true
is_ended job_failed = true
is_ended _ = false

-- The result of the inner loop: the job, whether its slot is done now, and the world.
pub record Ran (T S : Type 0) : Type 0 where
  pub job : QueueJob T
  pub finished : Bool
  pub world : S

module _ {T S : Type 0} where
  -- The queue after the loop over the job in slot `head`: an ended job frees its slot.
  unfoldable pub store_job : ThreadQueue T → ℕ → Ran T S → ThreadQueue T
  store_job q head r = record q {
    slots = set q.slots head (record { job = some r.job; slot_done = r.finished });
    total_jobs_in_queue =
        if r.finished then (q.total_jobs_in_queue + 255) % 256 else q.total_jobs_in_queue;
  }

-- `head = ++head % QUEUE_SIZE`.
unfoldable pub next_head : ℕ → ℕ
next_head head = (head + 1) % queue_size

module _ {T S : Type 0} (proc : T → Process S) where
  -- `init_timer`: a job that can be paused gets a timer thread. Whether that thread has run by the
  -- time the loop reads the timer is `elapsed`.
  unfoldable pub init_timer : QueueJob T → Bool → JobTimer
  unfolding start_job_timer
  init_timer job elapsed = elim (proc job.task).pause_proc [
    | none ↦ record { allowed_cpu_slice = none; job_should_pause = false }
    | some _ ↦
        let timer : JobTimer = record {
          allowed_cpu_slice = some job.cpu_slice_ms;
          job_should_pause = false;
        } in
        if elapsed then start_job_timer timer else timer
  ]

  -- `start_proc` and what follows it in the loop body, up to the next turn: the job, the world and
  -- whether the loop goes on.
  unfoldable pub start_job : QueueJob T → S → QueueJob T × S × Bool
  start_job job s =
      let (status, s') = (proc job.task).start_proc s in
      elim status [
        | job_done ↦ (record job { job_status = job_done }, s', false)
        | job_failed ↦
            (record job { job_status = job_failed; job_error_handle = some true }, s', false)
        | job_pending ↦ (record job { job_status = job_pending }, s', true)
        | job_finished ↦ (record job { job_status = job_finished }, s', true)
      ]

  -- `end_proc` at the top of the loop body, for a job that is done or has failed.
  unfoldable pub end_job : QueueJob T → S → Ran T S
  end_job job s =
      let (status, s') = (proc job.task).end_proc job.job_status s in
      record { job = record job { job_status = status }; finished = true; world = s' }

  -- `while(!timer->jobShouldPause)`.
  unfoldable pub run_job : ℕ → JobTimer → QueueJob T → S → Option (Ran T S)
  unfolding start_job end_job
  run_job zero timer job s = none
  run_job (suc fuel) timer job s =
      let (started, s', again) = start_job job s in
      let more = run_job fuel timer started s' in
      let next =
        if again then more else some (record { job = started; finished = false; world = s' }) in
      if timer.job_should_pause
      then some (record { job = job; finished = false; world = s })
      else if is_ended job.job_status
      then some (end_job job s)
      else next

  -- `job->proc->pause_proc(job->args)` behind the loop.
  unfoldable pub pause_job : JobTimer → QueueJob T → S → S
  pause_job timer job s = elim (proc job.task).pause_proc [
    | none ↦ s
    | some pause ↦ if timer.job_should_pause then (pause s).1 else s
  ]

  -- What a turn of `thread_task` does at the slot `head`; the turn after it is at the next slot.
  unfoldable pub visit_slot :
      ℕ → Bool → ThreadQueue T → ℕ → S → Outcome (Option (ThreadQueue T × S))
  unfolding init_timer run_job pause_job store_job
  visit_slot fuel elapsed q head s = elim (get_elem? q.slots head) [
    | none ↦ fault
    | some slot ↦
        if slot.slot_done || q.total_jobs_in_queue == 0 then done (some (q, s)) else elim slot.job [
          | none ↦ fault
          | some job ↦
              let timer = init_timer job elapsed in
              done (
                Option.map (λ r. (store_job q head r, pause_job timer r.job r.world))
                  (run_job fuel timer job s))
        ]
  ]

  -- At most `turns` turns of `thread_task`; it stops before one that finds the stop flag set. None
  -- says that the fuel of a turn ran out.
  unfoldable pub thread_task :
      ℕ → ℕ → (ℕ → Bool) → ThreadQueue T → ℕ → S → Outcome (Option (ThreadQueue T × ℕ × S))
  unfolding visit_slot next_head
  thread_task zero fuel elapsed q head s = done (some (q, head, s))
  thread_task (suc turns) fuel elapsed q head s =
      let turn : Outcome (Option (ThreadQueue T × ℕ × S)) = (do
        r ← visit_slot fuel (elapsed turns) q head s
        elim r [
          | none ↦ done none
          | some (q', s') ↦ thread_task turns fuel elapsed q' (next_head head) s'
        ]) in
      if q.thread_should_stop then done (some (q, head, s)) else turn
