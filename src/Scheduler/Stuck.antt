-- ===== src/Scheduler/Stuck.antt =====
-- A task that never ends keeps its slot, whatever the scheduler and the other threads do.
use mathlib.Core.Option
use server_unit.Base.{
  ℕ, zero, suc, ◌≡◌, ◌≢◌, sym, subst, ◌∙◌, inl, inr, Bool, false, Bool-cases, Option, Option-cases,
  none, some, List, [], ◌∷◌, arith, get_elem?, get_elem?-set_same, get_elem?-set_other, set, All,
  All-get_elem?, ◌==◌, done, WhenDone, WhenDone-then, WhenDone-bind, WhenDone-if,
}
use server_unit.Task.{job_pending, Process}
use server_unit.Pool.{pop_task, get_task_pool_size}
use server_unit.Scheduler.{
  QueueJob, Slot, ThreadQueue, Sched, empty_slots, get_total_empty_slots, fill_slot, init_job,
  schedule_into, schedule_one, schedule_slots, sched_round, get_quickest_queue,
}
use server_unit.Scheduler.Invariant.{IsValid, IsFilled}
use server_unit.Scheduler.Progress.{run_job-endless}
use server_unit.Scheduler.Finish.{Holds, visit_slot-eq, ran_slot}
use server_unit.Scheduler.Runner.{Ran, init_timer, run_job, pause_job, store_job, visit_slot}
use server_unit.Scheduler.Conserved.{Ensures, Gives}
use server_unit.Scheduler.System.{System, Step, submit, round, turn}

module _ {T : Type 0} where
  abbrev pub taken_by : QueueJob T → Slot T
  taken_by job = record { job = some job; slot_done = false }

  -- The slot `head` of the queue `i` holds the job, which is not done.
  pub record Occupies (i head : ℕ) (job : QueueJob T) (qs : List (ThreadQueue T)) : Type 0 where
    pub queue : ThreadQueue T
    pub there : get_elem? qs i ≡ some queue
    pub held : get_elem? queue.slots head ≡ some (taken_by job)

  get_elem?-fill_slot :
      (new : QueueJob T) (ss : List (Slot T)) (k : ℕ) (job : QueueJob T)
      → get_elem? ss k ≡ some (taken_by job)
      → get_elem? (fill_slot new ss) k ≡ some (taken_by job)
  unfolding fill_slot
  get_elem?-fill_slot new [] k job e = absurd (cc)
  get_elem?-fill_slot new (s ∷ ss) zero job e = ground arith
  get_elem?-fill_slot new (s ∷ ss) (suc k) job e = ground (arith, get_elem?-fill_slot new ss k job)

  -- A write to a queue keeps the slot if the new queue does.
  Occupies-set :
      (i head : ℕ) (job : QueueJob T) (qs : List (ThreadQueue T)) (j : ℕ) (q q' : ThreadQueue T)
      → Occupies i head job qs
      → get_elem? qs j ≡ some q
      → (i ≡ j
          → get_elem? q.slots head ≡ some (taken_by job)
          → get_elem? q'.slots head ≡ some (taken_by job))
      → Occupies i head job (set qs j q')
  Occupies-set i head job qs j q q' o e keep = elim (Bool-cases (i == j)) [
    | inl same ↦
        let is : i ≡ j = ground arith in
        record {
          queue = q';
          there = rw is (get_elem?-set_same qs j q' e);
          held = keep is (ground (arith, o.there, o.held));
        }
    | inr other ↦ record {
      queue = o.queue;
      there = get_elem?-set_other qs j i q' (λ e'. ground arith) ∙ o.there;
      held = o.held;
    }
  ]

  schedule_into-Occupies :
      (i head : ℕ) (job : QueueJob T) (s : Sched T) (j : ℕ) (q : ThreadQueue T)
      → get_elem? s.queues j ≡ some q
      → Occupies i head job s.queues
      → WhenDone (λ (s' : Sched T). Occupies i head job s'.queues) (schedule_into s j q)
  unfolding schedule_into
  schedule_into-Occupies i head job s j q e o =
      let P = λ (s' : Sched T). Occupies i head job s'.queues in
      WhenDone-if P (empty_slots q.slots == 0) (done s) _ o (
        WhenDone-then P (pop_task s.pool) _ (λ r. WhenDone-then P (init_job r.0) _ (λ new.
          Occupies-set i head job s.queues j q _ o e
            (λ same held. get_elem?-fill_slot new q.slots head job held))))

  schedule_one-Occupies :
      (i head : ℕ) (job : QueueJob T) (s : Sched T)
      → Occupies i head job s.queues
      → WhenDone (λ (s' : Sched T). Occupies i head job s'.queues) (schedule_one s)
  unfolding schedule_one
  schedule_one-Occupies i head job s o =
      let P = λ (s' : Sched T). Occupies i head job s'.queues in
      WhenDone-then P (get_quickest_queue s.queues) _ (λ j.
        elim (Option-cases (get_elem? s.queues j)) [
          | inl e ↦ rw e tt
          | inr (q, e) ↦ rw e (schedule_into-Occupies i head job s j q e o)
        ])

  schedule_slots-Occupies :
      (i head : ℕ) (job : QueueJob T) (n : ℕ) (s : Sched T)
      → Occupies i head job s.queues
      → WhenDone (λ (s' : Sched T). Occupies i head job s'.queues) (schedule_slots n s)
  unfolding schedule_slots
  schedule_slots-Occupies i head job zero s o = o
  schedule_slots-Occupies i head job (suc n) s o =
      let P = λ (s' : Sched T). Occupies i head job s'.queues in
      WhenDone-if P (get_task_pool_size s.pool == 0) (done s) _ o (
        WhenDone-bind P P (schedule_one s) _ (schedule_one-Occupies i head job s o)
          (λ s' o'. schedule_slots-Occupies i head job n s' o'))

  sched_round-Occupies :
      (i head : ℕ) (job : QueueJob T) (s : Sched T)
      → Occupies i head job s.queues
      → WhenDone (λ (s' : Sched T). Occupies i head job s'.queues) (sched_round s)
  unfolding sched_round
  sched_round-Occupies i head job s o =
      schedule_slots-Occupies i head job (get_total_empty_slots s.queues) s o

module _ {T S : Type 0} (proc : T → Process S) where
  Ensures-map :
      (q : ThreadQueue T) (j head : ℕ) (job : QueueJob T) (pause : Ran T S → S)
      (o : Option (Ran T S))
      → get_elem? q.slots head ≡ some (taken_by job)
      → j ≢ head
      → Ensures
          (λ (r : ThreadQueue T × S). get_elem? r.0.slots head ≡ some (taken_by job))
          (Option.map (λ (r : Ran T S). (store_job q j r, pause r)) o)
  unfolding store_job
  Ensures-map q j head job pause none held ne = tt
  Ensures-map q j head job pause (some r) held ne =
      get_elem?-set_other q.slots j head (ran_slot r) ne ∙ held

  -- A task that is pending whenever it is started.
  abbrev pub NeverEnds : T → Type 0
  NeverEnds t = (s : S) → ((proc t).start_proc s).0 ≡ job_pending

  -- A turn at any slot of the queue, if it returns, leaves the job of such a task where it was.
  visit_held :
      (fuel : ℕ) (elapsed : Bool) (q : ThreadQueue T) (j head : ℕ) (job other : QueueJob T) (s : S)
      → get_elem? q.slots head ≡ some (taken_by job)
      → NeverEnds job.task
      → job.job_status ≡ job_pending
      → Holds q j other
      → Gives
          (λ r. get_elem? r.0.slots head ≡ some (taken_by job))
          (visit_slot proc fuel elapsed q j s)
  visit_held fuel elapsed q j head job other s held never pending h =
      rw (visit_slot-eq proc fuel elapsed q j s other h) (elim (Bool-cases (j == head)) [
        | inl e ↦
            let same : other ≡ job = ground (arith, h.held) in
            rw same (rw (run_job-endless proc fuel elapsed job s never pending) tt)
        | inr e ↦
            Ensures-map q j head job
              (λ r. pause_job proc (init_timer proc other elapsed) r.job r.world)
              (run_job proc fuel (init_timer proc other elapsed) other s) held (λ e'. ground arith)
      ])

  visit_slot-held :
      (fuel : ℕ) (elapsed : Bool) (q : ThreadQueue T) (j head : ℕ) (job : QueueJob T) (s : S)
      → IsValid q
      → get_elem? q.slots head ≡ some (taken_by job)
      → NeverEnds job.task
      → job.job_status ≡ job_pending
      → Gives
          (λ r. get_elem? r.0.slots head ≡ some (taken_by job))
          (visit_slot proc fuel elapsed q j s)
  unfolding visit_slot
  visit_slot-held fuel elapsed q j head job s v held never pending =
      elim (Option-cases (get_elem? q.slots j)) [
        | inl e ↦ rw (e, visit_slot) tt
        | inr (slot, e) ↦ elim (Bool-cases slot.slot_done) [
          | inl d ↦ rw (e, visit_slot) (rw d held)
          | inr d ↦ elim (All-get_elem? IsFilled q.slots j v.filled e) [
            | inl d' ↦ cc
            | inr (other, is, sliced) ↦
                visit_held fuel elapsed q j head job other s held never pending
                  (record { valid = v; held = ground arith; sliced = sliced })
          ]
        ]
      ]

  pub Step-Occupies :
      {x y : System T S} (i head : ℕ) (job : QueueJob T)
      → Step proc x y
      → All IsValid x.sched.queues
      → NeverEnds job.task
      → job.job_status ≡ job_pending
      → Occupies i head job x.sched.queues
      → Occupies i head job y.sched.queues
  Step-Occupies i head job (submit t k e is) v never pending o =
      subst (λ (z : Sched T). Occupies i head job z.queues) (sym is) o
  Step-Occupies i head job (round {x} e) v never pending o =
      subst (WhenDone (λ (s' : Sched T). Occupies i head job s'.queues)) e
        (sched_round-Occupies i head job x.sched o)
  Step-Occupies i head job (turn {x} {q} {q'} j slot fuel elapsed g e) v never pending o =
      Occupies-set i head job x.sched.queues j q q' o g (λ same held.
        subst (Gives (λ (r : ThreadQueue T × S). get_elem? r.0.slots head ≡ some (taken_by job))) e
          (visit_slot-held fuel elapsed q slot head job x.world
            (All-get_elem? IsValid x.sched.queues j v g) held never pending))
