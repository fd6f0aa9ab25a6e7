-- ===== src/Scheduler/Conserved.antt =====
-- In every reachable state each task that the pool took is in one place.
use mathlib.Core.Option
use server_unit.Base.{
  ℕ, zero, suc, ◌+◌, ◌≡◌, refl, ap, ◌∙◌, inl, inr, Bool, true, false, Bool-cases, Option,
  Option-cases, none, some, List, [], ◌∷◌, arith, All-get_elem?, get_elem?, get_elem?-set_same, set,
  if◌then◌else◌, Outcome, done, blocked, fault,
}
use server_unit.Task.{Process}
use server_unit.Scheduler.{QueueJob, ThreadQueue, Slot}
use server_unit.Scheduler.Invariant.{IsValid, IsFilled}
use server_unit.Scheduler.Weight.{slot_weight, slots_weight, tasks_weight}
use server_unit.Scheduler.Finish.{Holds, store_job-IsValid, visit_slot-eq, ran_slot}
use server_unit.Scheduler.Runner.{
  JobTimer, Ran, init_timer, is_ended, start_job, end_job, run_job, pause_job, store_job,
  visit_slot,
}
use server_unit.Scheduler.System.{freed_task, task_of}

-- A result of the call, if there is one, satisfies `P`.
abbrev pub Ensures {ℓ} : {A : Type ℓ} → (A → Type 0) → Option A → Type 0
Ensures P none = Unit
Ensures P (some a) = P a

abbrev pub Gives {ℓ} : {A : Type ℓ} → (A → Type 0) → Outcome (Option A) → Type 0
Gives P (done o) = Ensures P o
Gives P blocked = Unit
Gives P fault = Unit

Ensures-if {ℓ} :
    {A : Type ℓ} (P : A → Type 0) (b : Bool) (x y : Option A)
    → Ensures P x
    → Ensures P y
    → Ensures P (if b then x else y)
Ensures-if P true x y p q = p
Ensures-if P false x y p q = q

Ensures-weaken {ℓ} :
    {A : Type ℓ} (P Q : A → Type 0) (o : Option A)
    → Ensures P o
    → ((a : A) → P a → Q a)
    → Ensures Q o
Ensures-weaken P Q none p f = tt
Ensures-weaken P Q (some a) p f = f a p

module _ {T S : Type 0} (proc : T → Process S) where
  abbrev SameJob : QueueJob T → Ran T S → Type 0
  SameJob job r = (r.job.task ≡ job.task) × (r.job.cpu_slice_ms ≡ job.cpu_slice_ms)

  start_job-same :
      (job : QueueJob T) (s : S)
      → ((start_job proc job s).0.task ≡ job.task)
        × ((start_job proc job s).0.cpu_slice_ms ≡ job.cpu_slice_ms)
  unfolding start_job
  start_job-same job s = ground arith

  -- The inner loop changes neither the task of a job nor its slice.
  run_job-same :
      (fuel : ℕ) (timer : JobTimer) (job : QueueJob T) (s : S)
      → Ensures (SameJob job) (run_job proc fuel timer job s)
  unfolding run_job end_job
  run_job-same zero timer job s = tt
  run_job-same (suc fuel) timer job s =
      let (started, s', again) = start_job proc job s in
      let (t, c) = start_job-same job s in
      Ensures-if (SameJob job) timer.job_should_pause _ _ (refl, refl)
        (Ensures-if (SameJob job) (is_ended job.job_status) _ _ (refl, refl)
          (Ensures-if (SameJob job) again _ _
            (Ensures-weaken (SameJob started) (SameJob job) (run_job proc fuel timer started s')
              (run_job-same fuel timer started s') (λ r (t', c'). (t' ∙ t, c' ∙ c)))
            (t, c)))

module _ {T S : Type 0} (proc : T → Process S) (f : T → ℕ) where
  slots_weight-set :
      (ss : List (Slot T)) (i : ℕ) (old new : Slot T)
      → get_elem? ss i ≡ some old
      → slots_weight f (set ss i new) + slot_weight f old ≡ slots_weight f ss + slot_weight f new
  slots_weight-set [] i old new g = absurd (cc)
  slots_weight-set (s ∷ ss) zero old new g = ground arith
  slots_weight-set (s ∷ ss) (suc i) old new g = omega (arith, slots_weight-set ss i old new g)

  -- The queue stays valid, and what its slots lose is the task that is freed.
  abbrev pub Keeps : ThreadQueue T → ℕ → ThreadQueue T → Type 0
  Keeps q head q' =
      IsValid q'
      × (slots_weight f q'.slots + tasks_weight f (freed_task q q' head) ≡ slots_weight f q.slots)

  freed_task-eq :
      (q q' : ThreadQueue T) (head : ℕ) (old new : Slot T)
      → get_elem? q.slots head ≡ some old
      → get_elem? q'.slots head ≡ some new
      → freed_task q q' head
        ≡ (if old.slot_done then [] else if new.slot_done then task_of old else [])
  unfolding freed_task
  freed_task-eq q q' head old new e e' = rw (e, freed_task) (rw e' refl)

  freed_task-none :
      (q q' : ThreadQueue T) (head : ℕ) → get_elem? q.slots head ≡ none → freed_task q q' head ≡ []
  unfolding freed_task
  freed_task-none q q' head e = rw (e, freed_task) refl

  if_same : (b : Bool) (xs : List T) → (if b then [] else if b then xs else []) ≡ []
  if_same true xs = refl
  if_same false xs = refl

  freed_task_same : (q : ThreadQueue T) (head : ℕ) → freed_task q q head ≡ []
  freed_task_same q head = elim (Option-cases (get_elem? q.slots head)) [
    | inl e ↦ freed_task-none q q head e
    | inr (slot, e) ↦ freed_task-eq q q head slot slot e e ∙ if_same slot.slot_done (task_of slot)
  ]

  Keeps-same : (q : ThreadQueue T) (head : ℕ) → IsValid q → Keeps q head q
  Keeps-same q head v = (v, rw (freed_task_same q head) (omega arith))

  store_job-Keeps :
      (q : ThreadQueue T) (head : ℕ) (job : QueueJob T) (r : Ran T S)
      → Holds q head job
      → SameJob proc job r
      → Keeps q head (store_job q head r)
  unfolding store_job freed_task
  store_job-Keeps q head job r h (t, c) = (
    store_job-IsValid q head job r h (rw c h.sliced),
    ground (
      arith,
      slots_weight-set q.slots head _ (ran_slot r) h.held,
      freed_task-eq q (store_job q head r) head _ (ran_slot r) h.held
          (get_elem?-set_same q.slots head (ran_slot r) h.held),
      ap f t,
    ),
  )

  Keeps-map :
      (q : ThreadQueue T) (head : ℕ) (job : QueueJob T) (pause : Ran T S → S) (o : Option (Ran T S))
      → Holds q head job
      → Ensures (SameJob proc job) o
      → Ensures
          (λ (r : ThreadQueue T × S). Keeps q head r.0)
          (Option.map (λ (r : Ran T S). (store_job q head r, pause r)) o)
  Keeps-map q head job pause none h e = tt
  Keeps-map q head job pause (some r) h e = store_job-Keeps q head job r h e

  visit_held :
      (fuel : ℕ) (elapsed : Bool) (q : ThreadQueue T) (head : ℕ) (job : QueueJob T) (s : S)
      → Holds q head job
      → Gives (λ r. Keeps q head r.0) (visit_slot proc fuel elapsed q head s)
  visit_held fuel elapsed q head job s h = rw (visit_slot-eq proc fuel elapsed q head s job h) (
      Keeps-map q head job (λ r. pause_job proc (init_timer proc job elapsed) r.job r.world)
        (run_job proc fuel (init_timer proc job elapsed) job s) h
        (run_job-same proc fuel (init_timer proc job elapsed) job s))

  visit_done :
      (fuel : ℕ) (elapsed : Bool) (q : ThreadQueue T) (head : ℕ) (s : S) (slot : Slot T)
      → IsValid q
      → get_elem? q.slots head ≡ some slot
      → slot.slot_done ≡ true
      → Gives (λ r. Keeps q head r.0) (visit_slot proc fuel elapsed q head s)
  unfolding visit_slot
  visit_done fuel elapsed q head s slot v e d = rw (e, visit_slot) (rw d (Keeps-same q head v))

  -- A turn of a worker thread, if it returns, keeps the queue valid and its tasks.
  pub visit_slot-Keeps :
      (fuel : ℕ) (elapsed : Bool) (q : ThreadQueue T) (head : ℕ) (s : S)
      → IsValid q
      → Gives (λ r. Keeps q head r.0) (visit_slot proc fuel elapsed q head s)
  unfolding visit_slot
  visit_slot-Keeps fuel elapsed q head s v = elim (Option-cases (get_elem? q.slots head)) [
    | inl e ↦ rw (e, visit_slot) tt
    | inr (slot, e) ↦ elim (All-get_elem? IsFilled q.slots head v.filled e) [
      | inl d ↦ visit_done fuel elapsed q head s slot v e d
      | inr (job, held, sliced) ↦ elim (Bool-cases slot.slot_done) [
        | inl d ↦ visit_done fuel elapsed q head s slot v e d
        | inr d ↦
            visit_held fuel elapsed q head job s
              (record { valid = v; held = ground arith; sliced = sliced })
      ]
    ]
  ]
