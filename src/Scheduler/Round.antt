-- ===== src/Scheduler/Round.antt =====
-- A round of the scheduler thread.
use server_unit.Base.{
  ℕ, zero, suc, ◌+◌, ◌-◌, ◌%◌, ◌≤◌, ◌<◌, ◌≡◌, refl, sym, ap, ◌∙◌, false, none, some, List, [], ◌∷◌,
  arith, length, get_elem?, set, length-set, All, All-set, All-get_elem?, ◌==◌, done, Returns,
  Returns-bind, Returns-weaken, Returns-of_eq, Bool-cases, inl, inr,
}
use server_unit.Task.{TaskPriority, job_pending}
use server_unit.Pool.{TaskPoolNode, pop_task, get_task_pool_size}
use server_unit.Pool.Queue.{of_queue}
use server_unit.Scheduler.{
  ThreadQueue, QueueJob, Sched, empty_slots, get_total_empty_slots, fill_slot, get_quickest_queue,
  init_job, schedule_into, schedule_one, schedule_slots, sched_round, get_cpu_slice,
}
use server_unit.Scheduler.Invariant.{
  IsValid, length-fill_slot, empty_slots-fill_slot, fill_slot-IsFilled,
}
use server_unit.Scheduler.Weight.{
  node_weight, pool_weight, slots_weight, queues_weight, slots_weight-fill_slot, queues_weight-set,
}
use server_unit.Scheduler.Choice.{HasRoom, get_quickest_queue-HasRoom}

get_cpu_slice-le : (k : TaskPriority) → get_cpu_slice k ≤ 6000000
unfolding get_cpu_slice
get_cpu_slice-le k = ground arith

-- What a round leaves in the pool: the tasks behind the first `n`.
abbrev pub rest_of {ℓ} : {A : Type ℓ} → ℕ → List A → List A
rest_of zero xs = xs
rest_of (suc n) [] = []
rest_of (suc n) (x ∷ xs) = rest_of n xs

module _ {T : Type 0} where
  -- The node holds a task.
  abbrev pub HasTask : TaskPoolNode T → Type 0
  HasTask x = (t : T) × (x.task_item ≡ some t)

  -- A scheduler over `n` valid queues, with the tasks `waiting` in the pool.
  pub record IsReady (n : ℕ) (waiting : List (TaskPoolNode T)) (s : Sched T) : Type 0 where
    pub pooled : s.pool ≡ of_queue waiting
    pub tasks : All HasTask waiting
    pub threads : length s.queues ≡ n
    pub queues : All IsValid s.queues

  -- While a slot is free, some queue has room.
  free_queue :
      (qs : List (ThreadQueue T))
      → All IsValid qs
      → 0 < get_total_empty_slots qs
      → (k : ℕ) × (p : ThreadQueue T) × (get_elem? qs k ≡ some p) × HasRoom p
  unfolding get_total_empty_slots
  free_queue [] v h = absurd (omega arith)
  free_queue (q ∷ qs) v h = elim (Bool-cases (empty_slots q.slots == 0)) [
    | inr e ↦ (0, q, refl, ground (arith, v.0.counted))
    | inl e ↦ let (k, p, g, room) = free_queue qs v.1 (ground arith) in (suc k, p, g, room)
  ]

  get_total_empty_slots-set :
      (qs : List (ThreadQueue T)) (i : ℕ) (q q' : ThreadQueue T)
      → get_elem? qs i ≡ some q
      → empty_slots q'.slots + 1 ≡ empty_slots q.slots
      → get_total_empty_slots (set qs i q') + 1 ≡ get_total_empty_slots qs
  unfolding get_total_empty_slots
  get_total_empty_slots-set [] i q q' g e = absurd (cc)
  get_total_empty_slots-set (p ∷ qs) zero q q' g e = ground arith
  get_total_empty_slots-set (p ∷ qs) (suc i) q q' g e =
      omega (arith, get_total_empty_slots-set qs i q q' g e)

  abbrev job_of : T → TaskPriority → QueueJob T
  job_of t k = record {
    task = t;
    cpu_slice_ms = get_cpu_slice k;
    job_status = job_pending;
    job_error_handle = none;
  }

  abbrev with_job : ThreadQueue T → QueueJob T → ThreadQueue T
  with_job q job = record q {
    slots = fill_slot job q.slots;
    total_jobs_in_queue = (q.total_jobs_in_queue + 1) % 256;
  }

  with_job-IsValid :
      (q : ThreadQueue T) (t : T) (k : TaskPriority)
      → IsValid q
      → HasRoom q
      → IsValid (with_job q (job_of t k))
  with_job-IsValid q t k v room = record {
    four = length-fill_slot (job_of t k) q.slots ∙ v.four;
    counted = omega (arith, v.counted, empty_slots-fill_slot (job_of t k) q.slots);
    filled = fill_slot-IsFilled (job_of t k) q.slots (get_cpu_slice-le k) v.filled;
  }

  schedule_into-eq :
      (x : TaskPoolNode T) (waiting : List (TaskPoolNode T)) (qs : List (ThreadQueue T)) (i : ℕ)
      (q : ThreadQueue T) (t : T)
      → x.task_item ≡ some t
      → IsValid q
      → HasRoom q
      → schedule_into (record { pool = of_queue (x ∷ waiting); queues = qs }) i q
        ≡ done (record {
          pool = of_queue waiting;
          queues = set qs i (with_job q (job_of t x.task_type));
        })
  unfolding schedule_into pop_task init_job
  schedule_into-eq x waiting qs i q t e v room = ground (arith, v.counted)

  -- Into a queue with room, the oldest task goes to a slot that was free.
  schedule_into-IsReady :
      (f : T → ℕ) (n : ℕ) (x : TaskPoolNode T) (waiting : List (TaskPoolNode T)) (s : Sched T)
      (i : ℕ) (q : ThreadQueue T)
      → IsReady n (x ∷ waiting) s
      → get_elem? s.queues i ≡ some q
      → HasRoom q
      → Returns
          (λ s'.
            IsReady n waiting s'
            × (get_total_empty_slots s'.queues + 1 ≡ get_total_empty_slots s.queues)
            × (queues_weight f s'.queues ≡ node_weight f x + queues_weight f s.queues))
          (schedule_into s i q)
  schedule_into-IsReady f n x waiting s i q r g room =
      let v : IsValid q = All-get_elem? IsValid s.queues i r.queues g in
      let (t, e) = r.tasks.0 in
      let q' : ThreadQueue T = with_job q (job_of t x.task_type) in
      Returns-of_eq _ (schedule_into s i q)
        (ap (λ p. schedule_into (record s { pool = p }) i q) r.pooled
          ∙ schedule_into-eq x waiting s.queues i q t e v room)
        (
          record {
            pooled = refl;
            tasks = r.tasks.1;
            threads = length-set s.queues i q' ∙ r.threads;
            queues =
                All-set IsValid s.queues i q' r.queues (with_job-IsValid q t x.task_type v room);
          },
          get_total_empty_slots-set s.queues i q q' g
              (empty_slots-fill_slot (job_of t x.task_type) q.slots (omega (arith, v.counted))),
          queues_weight-set f s.queues i (node_weight f x) q q' g (
              slots_weight-fill_slot f (job_of t x.task_type) q.slots (omega (arith, v.counted))
              ∙ ap (λ o. (elim o [ none ↦ 0 | some t ↦ f t ]) + slots_weight f q.slots) (sym e)),
        )

  schedule_one-IsReady :
      (f : T → ℕ) (n : ℕ) (x : TaskPoolNode T) (waiting : List (TaskPoolNode T)) (s : Sched T)
      → IsReady n (x ∷ waiting) s
      → n ≤ 4
      → 0 < get_total_empty_slots s.queues
      → Returns
          (λ s'.
            IsReady n waiting s'
            × (get_total_empty_slots s'.queues + 1 ≡ get_total_empty_slots s.queues)
            × (queues_weight f s'.queues ≡ node_weight f x + queues_weight f s.queues))
          (schedule_one s)
  unfolding schedule_one
  schedule_one-IsReady f n x waiting s r b h =
      let (k, p, g, room) = free_queue s.queues r.queues h in
      Returns-bind (λ i. (q : ThreadQueue T) × (get_elem? s.queues i ≡ some q) × HasRoom q) _
        (get_quickest_queue s.queues) _
        (get_quickest_queue-HasRoom s.queues k p r.queues (omega (arith, r.threads)) g room)
        λ i (q, g', room'). rw g' (schedule_into-IsReady f n x waiting s i q r g' room')

  schedule_slots-IsReady :
      (f : T → ℕ) (n m : ℕ) (waiting : List (TaskPoolNode T)) (s : Sched T)
      → IsReady n waiting s
      → n ≤ 4
      → m ≡ get_total_empty_slots s.queues
      → Returns
          (λ s'.
            IsReady n (rest_of m waiting) s'
            × (get_total_empty_slots s'.queues ≡ m - length waiting)
            × (queues_weight f s'.queues + pool_weight f (rest_of m waiting)
                ≡ queues_weight f s.queues + pool_weight f waiting))
          (schedule_slots m s)
  unfolding schedule_slots get_task_pool_size
  schedule_slots-IsReady f n zero waiting s r b e = (r, omega arith, refl)
  schedule_slots-IsReady f n (suc m) [] s r b e = ground (arith, r.pooled)
  schedule_slots-IsReady f n (suc m) (x ∷ waiting) s r b e =
      rw (nonempty, schedule_slots)
        (Returns-bind
          (λ s'.
            IsReady n waiting s'
            × (get_total_empty_slots s'.queues + 1 ≡ get_total_empty_slots s.queues)
            × (queues_weight f s'.queues ≡ node_weight f x + queues_weight f s.queues))
          _ (schedule_one s) _ (schedule_one-IsReady f n x waiting s r b (omega arith))
          λ s' (r', e', w').
            Returns-weaken _ _ (schedule_slots m s')
              (schedule_slots-IsReady f n m waiting s' r' b (omega arith))
              (λ t (r'', e'', w''). (r'', omega arith, omega arith)))
    where
      nonempty : (s.pool.task_pool_count == 0) ≡ false
      nonempty = ground (arith, r.pooled)

  -- On valid queues of at most four threads, a round never fails: it takes the oldest tasks out of
  -- the pool, one for each slot that was free, until the pool is empty or no slot is free. As many
  -- slots are taken as tasks went, the queues stay valid, and no task is lost or doubled: for any
  -- weight of tasks, those in the slots and the pool together weigh what they did.
  pub sched_round-IsReady :
      (f : T → ℕ) (n : ℕ) (waiting : List (TaskPoolNode T)) (s : Sched T)
      → IsReady n waiting s
      → n ≤ 4
      → Returns
          (λ s'.
            IsReady n (rest_of (get_total_empty_slots s.queues) waiting) s'
            × (get_total_empty_slots s'.queues ≡ get_total_empty_slots s.queues - length waiting)
            × (queues_weight f s'.queues
                  + pool_weight f (rest_of (get_total_empty_slots s.queues) waiting)
                ≡ queues_weight f s.queues + pool_weight f waiting))
          (sched_round s)
  unfolding sched_round
  sched_round-IsReady f n waiting s r b =
      schedule_slots-IsReady f n (get_total_empty_slots s.queues) waiting s r b refl
