-- ===== src/Scheduler/Shutdown.antt =====
-- `exit_sched` while a task that never ends is in a slot.
use mathlib.Core.Option
use server_unit.Base.{
  ℕ, zero, suc, ◌+◌, ◌*◌, ◌≤◌, ◌<◌, ◌≡◌, refl, ap, true, none, some, List, [], ◌∷◌, arith, length,
  get_elem?, All,
}
use server_unit.Task.{job_pending, Process}
use server_unit.Scheduler.{
  QueueJob, Slot, ThreadQueue, Sched, empty_slots, get_total_empty_slots, has_jobs,
}
use server_unit.Scheduler.Invariant.{IsValid}
use server_unit.Scheduler.Finish.{length_bound}
use server_unit.Scheduler.System.{System, Step, Reach, next}
use server_unit.Scheduler.Safety.{Reach-IsSafe}
use server_unit.Scheduler.Exit.{wait_for_jobs, exit_sched}
use server_unit.Scheduler.Stuck.{taken_by, Occupies, NeverEnds, Step-Occupies}

module _ {T : Type 0} where
  empty_slots-lt :
      (ss : List (Slot T)) (head : ℕ) (job : QueueJob T)
      → get_elem? ss head ≡ some (taken_by job)
      → empty_slots ss < length ss
  unfolding empty_slots
  empty_slots-lt [] head job e = absurd (cc)
  empty_slots-lt (s ∷ ss) zero job e = ground (arith, length_bound ss)
  empty_slots-lt (s ∷ ss) (suc head) job e = ground (arith, empty_slots-lt ss head job e)

  get_total_empty_slots-le :
      (qs : List (ThreadQueue T)) → All IsValid qs → get_total_empty_slots qs ≤ length qs * 4
  unfolding get_total_empty_slots
  get_total_empty_slots-le [] v = omega arith
  get_total_empty_slots-le (q ∷ qs) v =
      omega (arith, v.0.four, length_bound q.slots, get_total_empty_slots-le qs v.1)

  get_total_empty_slots-lt :
      (qs : List (ThreadQueue T)) (i head : ℕ) (q : ThreadQueue T) (job : QueueJob T)
      → All IsValid qs
      → get_elem? qs i ≡ some q
      → get_elem? q.slots head ≡ some (taken_by job)
      → get_total_empty_slots qs < length qs * 4
  unfolding get_total_empty_slots
  get_total_empty_slots-lt [] i head q job v e held = absurd (cc)
  get_total_empty_slots-lt (p ∷ qs) zero head q job v e held =
      let is : p ≡ q = ground arith in
      omega (
        arith,
        v.0.four,
        get_total_empty_slots-le qs v.1,
        ap (λ (r : ThreadQueue T). empty_slots r.slots) is,
        ap (λ (r : ThreadQueue T). length r.slots) is,
        empty_slots-lt q.slots head job held,
      )
  get_total_empty_slots-lt (p ∷ qs) (suc i) head q job v e held =
      omega
        (arith, v.0.four, length_bound p.slots, get_total_empty_slots-lt qs i head q job v.1 e held)

  has_jobs-Occupies :
      (s : Sched T) (i head : ℕ) (job : QueueJob T)
      → All IsValid s.queues
      → Occupies i head job s.queues
      → has_jobs s ≡ true
  unfolding has_jobs
  has_jobs-Occupies s i head job v o =
      ground (arith, get_total_empty_slots-lt s.queues i head o.queue job v o.there o.held)

module _ {T S : Type 0} (proc : T → Process S) where
  -- Any number of turns.
  pub data Steps (x : System T S) : System T S → Type 0 where
    stay : Steps x x
    step : {y z : System T S} → Steps x y → Step proc y z → Steps x z

  module _ (n i head : ℕ) (job : QueueJob T) (b : n ≤ 4) (never : NeverEnds proc job.task)
      (pending : job.job_status ≡ job_pending) where
    abbrev IsStuck : System T S → Type 0
    IsStuck x = Reach proc n x × Occupies i head job x.sched.queues

    Steps-IsStuck : {x y : System T S} → Steps x y → IsStuck x → IsStuck y
    Steps-IsStuck stay h = h
    Steps-IsStuck (step st last) h =
        let (r, o) = Steps-IsStuck st h in
        let safe = Reach-IsSafe proc (λ t. 0) n b r in
        (next r last, Step-Occupies proc i head job last safe.ready.queues never pending o)

    states-IsStuck :
        (states : ℕ → System T S)
        → ((k : ℕ) → Steps (states k) (states (suc k)))
        → IsStuck (states 0)
        → (k : ℕ) → IsStuck (states k)
    states-IsStuck states go h zero = h
    states-IsStuck states go h (suc k) = Steps-IsStuck (go k) (states-IsStuck states go h k)

    wait_for_jobs-none :
        (fuel k : ℕ) (states : ℕ → Sched T)
        → ((k : ℕ) → has_jobs (states k) ≡ true)
        → wait_for_jobs fuel states k ≡ none
    unfolding wait_for_jobs
    wait_for_jobs-none zero k states busy = refl
    wait_for_jobs-none (suc fuel) k states busy =
        rw (busy k) (wait_for_jobs-none fuel (k + 1) states busy)

    -- With at most four threads, from any reachable state in which a task that never ends is in a
    -- slot, however tasks are added and the threads take their turns between the polls: `exit_sched`
    -- does not return for any fuel.
    pub exit_sched-endless :
        (fuel : ℕ) (states : ℕ → System T S)
        → Reach proc n (states 0)
        → Occupies i head job (states 0).sched.queues
        → ((k : ℕ) → Steps (states k) (states (suc k)))
        → exit_sched fuel (λ k. (states k).sched) ≡ none
    unfolding exit_sched
    exit_sched-endless fuel states reach there go =
        let busy : (k : ℕ) → has_jobs (states k).sched ≡ true = λ k.
          let (r, o) = states-IsStuck states go (reach, there) k in
          has_jobs-Occupies (states k).sched i head job
            (Reach-IsSafe proc (λ t. 0) n b r).ready.queues o in
        ap (Option.map _) (wait_for_jobs-none fuel 0 (λ k. (states k).sched) busy)
