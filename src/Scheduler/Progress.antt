-- ===== src/Scheduler/Progress.antt =====
-- When the job in a slot ends, and that the worker threads keep the queues valid.
use server_unit.Base.{
  ℕ, zero, suc, ◌+◌, ◌<◌, ◌≡◌, refl, Bool, true, false, Option, none, some, List, [], ◌∷◌, arith,
  get_elem?, set, if◌then◌else◌,
}
use server_unit.Task.{JobStatus, job_done, job_pending, job_failed, Process}
use server_unit.Scheduler.{QueueJob, Slot, empty_slots}
use server_unit.Scheduler.Runner.{JobTimer, is_ended, init_timer, run_job}

module _ {T : Type 0} where
  pub empty_slots-set :
      (ss : List (Slot T)) (i : ℕ) (old new : Slot T)
      → get_elem? ss i ≡ some old
      → old.slot_done ≡ false
      → empty_slots (set ss i new) ≡ empty_slots ss + (if new.slot_done then 1 else 0)
  unfolding empty_slots
  empty_slots-set [] i old new g d = absurd (cc)
  empty_slots-set (s ∷ ss) zero old new g d = ground arith
  empty_slots-set (s ∷ ss) (suc i) old new g d = omega (arith, empty_slots-set ss i old new g d)

module _ {T S : Type 0} (proc : T → Process S) where
  -- The timer never asks a job to pause, whether its slice is over or not.
  pub init_timer-job_should_pause :
      (job : QueueJob T) (elapsed : Bool) → (init_timer proc job elapsed).job_should_pause ≡ false
  unfolding init_timer
  init_timer-job_should_pause job elapsed = ground arith

  -- Started in the world `s`, the task is pending `n` times and then ends with `status` in `s'`.
  pub data EndsIn (t : T) (status : JobStatus) (s' : S) : ℕ → S → Type 0 where
    last :
        {s : S}
        → (proc t).start_proc s ≡ (status, s')
        → is_ended status ≡ true
        → EndsIn t status s' zero s
    more :
        {n : ℕ} {s s₁ : S}
        → (proc t).start_proc s ≡ (job_pending, s₁)
        → EndsIn t status s' n s₁
        → EndsIn t status s' (suc n) s

  run_job-none :
      (fuel : ℕ) (timer : JobTimer) (job : QueueJob T) (s : S)
      → ((s : S) → ((proc job.task).start_proc s).0 ≡ job_pending)
      → job.job_status ≡ job_pending
      → timer.job_should_pause ≡ false
      → run_job proc fuel timer job s ≡ none
  unfolding run_job
  run_job-none zero timer job s pending e f = refl
  run_job-none (suc fuel) timer job s pending e f = ground (
    arith,
    pending s,
    run_job-none fuel timer (record job { job_status = job_pending })
        ((proc job.task).start_proc s).1 pending refl f,
  )

  -- A task that is pending whenever it is started keeps its thread for ever: the inner loop does
  -- not end for any fuel, whether the time slice of the job is over or not.
  pub run_job-endless :
      (fuel : ℕ) (elapsed : Bool) (job : QueueJob T) (s : S)
      → ((s : S) → ((proc job.task).start_proc s).0 ≡ job_pending)
      → job.job_status ≡ job_pending
      → run_job proc fuel (init_timer proc job elapsed) job s ≡ none
  run_job-endless fuel elapsed job s pending e =
      run_job-none fuel (init_timer proc job elapsed) job s pending e
        (init_timer-job_should_pause job elapsed)

  -- The loop over a task that ends within the fuel.
  pub run_job-some :
      (fuel n : ℕ) (timer : JobTimer) (job : QueueJob T) (s s' : S) (status : JobStatus)
      → EndsIn job.task status s' n s
      → n < fuel
      → job.job_status ≡ job_pending
      → timer.job_should_pause ≡ false
      → (h : Option Bool) × (run_job proc fuel timer job s
          ≡ some (record {
            job = record job { job_status = status; job_error_handle = h };
            finished = false;
            world = s';
          }))
        × (is_ended status ≡ true)
  unfolding run_job
  run_job-some zero n timer job s s' status ends l e f = absurd (omega arith)
  run_job-some (suc fuel) zero timer job s s' job_done (last st en) l e f =
      (job.job_error_handle, ground arith, refl)
  run_job-some (suc fuel) zero timer job s s' job_failed (last st en) l e f =
      (some true, ground arith, refl)
  run_job-some (suc fuel) zero timer job s s' job_pending (last st en) l e f = absurd (cc)
  run_job-some (suc fuel) zero timer job s s' _ (last st en) l e f = absurd (cc)
  run_job-some (suc fuel) (suc n) timer job s s' status (more {s₁ = s₁} st ends) l e f =
      let (h, eq, en) =
        run_job-some fuel n timer (record job { job_status = job_pending }) s₁ s' status ends
          (omega arith) refl f in
      (h, ground (arith, eq), en)
