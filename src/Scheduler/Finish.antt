-- ===== src/Scheduler/Finish.antt =====
-- How a slot is freed, and that a turn of a worker thread keeps its queue valid.
use mathlib.Core.Option
use server_unit.Base.{
  ℕ, suc, ◌+◌, ◌≤◌, ◌<◌, ◌≡◌, refl, ap, ◌∙◌, inr, Bool, true, false, Option, none, some, List, [],
  ◌∷◌, arith, length, length-set, get_elem?, get_elem?-set_same, set, All-set, done, ◌==◌,
}
use server_unit.Task.{JobStatus, job_pending, Process}
use server_unit.Scheduler.{QueueJob, Slot, ThreadQueue, empty_slots}
use server_unit.Scheduler.Invariant.{IsValid, IsFilled}
use server_unit.Scheduler.Progress.{
  EndsIn, empty_slots-set, init_timer-job_should_pause, run_job-some,
}
use server_unit.Scheduler.Runner.{
  JobTimer, Ran, is_ended, init_timer, end_job, run_job, pause_job, store_job, visit_slot,
}

module _ {T : Type 0} where
  pub length_bound : (ss : List (Slot T)) → empty_slots ss ≤ length ss
  unfolding empty_slots
  length_bound [] = omega arith
  length_bound (s ∷ ss) = ground (arith, length_bound ss)

  -- The queue holds, in the slot `head`, the job `job` that is not done.
  pub record Holds (q : ThreadQueue T) (head : ℕ) (job : QueueJob T) : Type 0 where
    pub valid : IsValid q
    pub held : get_elem? q.slots head ≡ some (record { job = some job; slot_done = false })
    pub sliced : job.cpu_slice_ms ≤ 6000000

  some_job :
      (q : ThreadQueue T) (head : ℕ) (job : QueueJob T)
      → Holds q head job
      → 0 < q.total_jobs_in_queue
  some_job q head job h = omega (
    arith,
    h.valid.counted,
    empty_slots-set q.slots head _ (record { job = none; slot_done = true }) h.held refl,
    length_bound (set q.slots head (record { job = none; slot_done = true })),
    length-set q.slots head (record { job = none; slot_done = true }),
  )

module _ {T S : Type 0} where
  abbrev pub ran_slot : Ran T S → Slot T
  ran_slot r = record { job = some r.job; slot_done = r.finished }

  pub store_job-IsValid :
      (q : ThreadQueue T) (head : ℕ) (job : QueueJob T) (r : Ran T S)
      → Holds q head job
      → r.job.cpu_slice_ms ≤ 6000000
      → IsValid (store_job q head r)
  unfolding store_job
  store_job-IsValid q head job r h le = record {
    four = length-set q.slots head (ran_slot r) ∙ h.valid.four;
    counted = ground (
      arith,
      h.valid.counted,
      empty_slots-set q.slots head _ (ran_slot r) h.held refl,
      some_job q head job h,
    );
    filled = All-set IsFilled q.slots head (ran_slot r) h.valid.filled (inr (r.job, refl, le));
  }

  freed :
      (q : ThreadQueue T) (head : ℕ) (job : QueueJob T) (r : Ran T S)
      → Holds q head job
      → r.finished ≡ true
      → (store_job q head r).total_jobs_in_queue + 1 ≡ q.total_jobs_in_queue
  unfolding store_job
  freed q head job r h f =
      let v : IsValid q = h.valid in ground (arith, v.counted, some_job q head job h)

module _ {T S : Type 0} (proc : T → Process S) where
  -- A turn at a slot with a job runs the inner loop over it.
  pub visit_slot-eq :
      (fuel : ℕ) (elapsed : Bool) (q : ThreadQueue T) (head : ℕ) (s : S) (job : QueueJob T)
      → Holds q head job
      → visit_slot proc fuel elapsed q head s
        ≡ done (
            Option.map
              (λ (r : Ran T S).
                (store_job q head r, pause_job proc (init_timer proc job elapsed) r.job r.world))
              (run_job proc fuel (init_timer proc job elapsed) job s))
  unfolding visit_slot
  visit_slot-eq fuel elapsed q head s job h =
      let l : (q.total_jobs_in_queue == 0) ≡ false = ground (arith, some_job q head job h) in
      rw (h.held, visit_slot) (rw l refl)

  pause_job-none :
      (timer : JobTimer) (job : QueueJob T) (s : S)
      → timer.job_should_pause ≡ false
      → pause_job proc timer job s ≡ s
  unfolding pause_job
  pause_job-none timer job s f = ground arith

  -- A turn at a slot whose task ends within the fuel leaves the ended job in the slot.
  pub visit_slot_runs :
      (fuel n : ℕ) (elapsed : Bool) (q : ThreadQueue T) (head : ℕ) (job : QueueJob T) (s s' : S)
      (status : JobStatus)
      → Holds q head job
      → EndsIn proc job.task status s' n s
      → n < fuel
      → job.job_status ≡ job_pending
      → (h : Option Bool) × (let job' = record job { job_status = status; job_error_handle = h } in
          let q' = store_job q head (record { job = job'; finished = false; world = s' }) in
          (visit_slot proc fuel elapsed q head s ≡ done (some (q', s')))
          × Holds q' head job'
          × (is_ended status ≡ true))
  unfolding store_job
  visit_slot_runs fuel n elapsed q head job s s' status h ends l e =
      let (handle, ran, en) =
        run_job-some proc fuel n (init_timer proc job elapsed) job s s' status ends l e
          (init_timer-job_should_pause proc job elapsed) in
      let job' : QueueJob T = record job { job_status = status; job_error_handle = handle } in
      let r : Ran T S = record { job = job'; finished = false; world = s' } in
      (
        handle,
        (
          visit_slot-eq fuel elapsed q head s job h
              ∙ rw ran (
                  ap (λ w. done (some (store_job q head r, w)))
                    (pause_job-none (init_timer proc job elapsed) job' s'
                      (init_timer-job_should_pause proc job elapsed))),
          record {
            valid = store_job-IsValid q head job r h h.sliced;
            held = get_elem?-set_same q.slots head (ran_slot r) h.held;
            sliced = h.sliced;
          },
          en,
        ),
      )

  run_job_ended :
      (fuel : ℕ) (timer : JobTimer) (job : QueueJob T) (s : S)
      → is_ended job.job_status ≡ true
      → timer.job_should_pause ≡ false
      → run_job proc (suc fuel) timer job s ≡ some (end_job proc job s)
  unfolding run_job
  run_job_ended fuel timer job s e f = ground arith

  -- A turn at a slot whose job has ended calls `end_proc` once and frees the slot.
  pub visit_slot_frees :
      (fuel : ℕ) (elapsed : Bool) (q : ThreadQueue T) (head : ℕ) (job : QueueJob T) (s : S)
      → Holds q head job
      → is_ended job.job_status ≡ true
      → (visit_slot proc (suc fuel) elapsed q head s
          ≡ done (
              some (
                store_job q head (end_job proc job s),
                ((proc job.task).end_proc job.job_status s).1,
              )))
        × IsValid (store_job q head (end_job proc job s))
        × ((store_job q head (end_job proc job s)).total_jobs_in_queue + 1 ≡ q.total_jobs_in_queue)
  unfolding end_job
  visit_slot_frees fuel elapsed q head job s h e =
      let timer : JobTimer = init_timer proc job elapsed in
      let f = init_timer-job_should_pause proc job elapsed in
      let r : Ran T S = end_job proc job s in
      (
        visit_slot-eq (suc fuel) elapsed q head s job h
            ∙ rw (run_job_ended fuel timer job s e f) (
                ap (λ w. done (some (store_job q head r, w)))
                  (pause_job-none timer r.job r.world f)),
        store_job-IsValid q head job r h h.sliced,
        freed q head job r h refl,
      )

  -- A job whose task ends with `status` after `n` pending starts is ended by two turns at its slot:
  -- the first starts it until it ends, the second calls `end_proc` with that status, frees the slot
  -- and counts one job less. The queue stays valid.
  pub visit_slot_twice :
      (fuel n fuel' : ℕ) (elapsed elapsed' : Bool) (q : ThreadQueue T) (head : ℕ) (job : QueueJob T)
      (s s' : S) (status : JobStatus)
      → Holds q head job
      → EndsIn proc job.task status s' n s
      → n < fuel
      → job.job_status ≡ job_pending
      → (q₁ q₂ : ThreadQueue T) × (visit_slot proc fuel elapsed q head s ≡ done (some (q₁, s')))
        × (visit_slot proc (suc fuel') elapsed' q₁ head s'
            ≡ done (some (q₂, ((proc job.task).end_proc status s').1)))
        × IsValid q₂
        × (q₂.total_jobs_in_queue + 1 ≡ q.total_jobs_in_queue)
  unfolding store_job
  visit_slot_twice fuel n fuel' elapsed elapsed' q head job s s' status h ends l e =
      let (handle, first) = visit_slot_runs fuel n elapsed q head job s s' status h ends l e in
      let job' : QueueJob T = record job { job_status = status; job_error_handle = handle } in
      let q₁ : ThreadQueue T =
        store_job q head (record { job = job'; finished = false; world = s' }) in
      let second = visit_slot_frees fuel' elapsed' q₁ head job' s' first.1 first.2 in
      (q₁, store_job q₁ head (end_job proc job' s'), first.0, second.0, second.1, second.2)
