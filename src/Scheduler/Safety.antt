-- ===== src/Scheduler/Safety.antt =====
-- What holds in every state that the scheduler and the worker threads can reach.
use server_unit.Base.{
  ℕ, zero, suc, ◌+◌, ◌≤◌, ◌<◌, ◌≡◌, refl, sym, ap, subst, ◌∙◌, inl, Bool, true, some, List, [], ◌∷◌,
  ◌++◌, arith, length, length-append, length-set, All, All-get_elem?, All-append, All-set,
  get_elem?, set, done, Returns, Returns-bind, ltb,
}
use server_unit.Base.Int.{pos}
use server_unit.Task.{Process, TaskPriority}
use server_unit.Pool.{TaskPool, TaskPoolNode, add_task, new_task_pool}
use server_unit.Pool.Queue.{of_queue, link_tail-append}
use server_unit.Scheduler.{
  ThreadQueue, Sched, sched_round, init_sched, init_queues, new_queue, empty_slots,
  get_total_empty_slots,
}
use server_unit.Scheduler.Invariant.{IsValid}
use server_unit.Scheduler.Round.{IsReady, HasTask, rest_of, sched_round-IsReady}
use server_unit.Scheduler.Weight.{pool_weight, slots_weight, queues_weight, tasks_weight}
use server_unit.Scheduler.Runner.{visit_slot}
use server_unit.Scheduler.System.{System, Step, submit, round, turn, Reach, here, next, freed_task}
use server_unit.Scheduler.Conserved.{Gives, Keeps, visit_slot-Keeps}

module _ {T S : Type 0} (proc : T → Process S) (f : T → ℕ) (n : ℕ) where
  -- The queues are valid, at most twenty tasks wait in the pool, and the tasks in the pool, in the
  -- slots and those that have ended are the tasks that were taken, for the weight `f`.
  pub record IsSafe (x : System T S) : Type 0 where
    pub waiting : List (TaskPoolNode T)
    pub ready : IsReady n waiting x.sched
    pub bounded : length waiting ≤ 20
    pub kept :
        queues_weight f x.sched.queues + pool_weight f waiting + tasks_weight f x.ended
        ≡ tasks_weight f x.submitted

  pool_weight-append :
      (xs ys : List (TaskPoolNode T))
      → pool_weight f (xs ++ ys) ≡ pool_weight f xs + pool_weight f ys
  pool_weight-append [] ys = omega arith
  pool_weight-append (x ∷ xs) ys = omega (arith, pool_weight-append xs ys)

  tasks_weight-append :
      (xs ys : List T) → tasks_weight f (xs ++ ys) ≡ tasks_weight f xs + tasks_weight f ys
  tasks_weight-append [] ys = omega arith
  tasks_weight-append (x ∷ xs) ys = omega (arith, tasks_weight-append xs ys)

  queues_weight-swap :
      (qs : List (ThreadQueue T)) (i w : ℕ) (q q' : ThreadQueue T)
      → get_elem? qs i ≡ some q
      → slots_weight f q'.slots + w ≡ slots_weight f q.slots
      → queues_weight f (set qs i q') + w ≡ queues_weight f qs
  queues_weight-swap [] i w q q' g e = absurd (cc)
  queues_weight-swap (p ∷ qs) zero w q q' g e = ground arith
  queues_weight-swap (p ∷ qs) (suc i) w q q' g e = omega (arith, queues_weight-swap qs i w q q' g e)

  length-rest_of : (k : ℕ) (xs : List (TaskPoolNode T)) → length (rest_of k xs) ≤ length xs
  length-rest_of zero xs = omega arith
  length-rest_of (suc k) [] = omega arith
  length-rest_of (suc k) (x ∷ xs) = omega (arith, length-rest_of k xs)

  -- A pool that takes a task, as a queue.
  abbrev node : T → TaskPriority → TaskPoolNode T
  node t k = record { task_item = some t; task_type = k }

  add_task-taken :
      (q : List (TaskPoolNode T)) (t : T) (k : TaskPriority) (pool : TaskPool T)
      → add_task (of_queue q) t k ≡ done (pos 0, pool)
      → (pool ≡ of_queue (q ++ node t k ∷ [])) × (length q < 20)
  unfolding add_task
  add_task-taken q t k pool e =
      (ground (arith, link_tail-append (node t k) q, length-append q (node t k ∷ [])), ground arith)

  HasTask-append :
      (q : List (TaskPoolNode T)) (t : T) (k : TaskPriority)
      → All HasTask q
      → All HasTask (q ++ node t k ∷ [])
  HasTask-append q t k h = All-append HasTask q (node t k ∷ []) h ((t, refl), tt)

  submit-IsSafe :
      (x : System T S) (t : T) (k : TaskPriority) (sched : Sched T) (pool : TaskPool T)
      → add_task x.sched.pool t k ≡ done (pos 0, pool)
      → sched ≡ record x.sched { pool = pool }
      → IsSafe x
      → IsSafe (record x { sched = sched; submitted = t ∷ x.submitted })
  submit-IsSafe x t k sched pool e is h =
      let q = h.waiting in
      let (same, below) =
        add_task-taken q t k pool
          (ap (λ (p : TaskPool T). add_task p t k) (sym h.ready.pooled) ∙ e) in
      record {
        waiting = q ++ node t k ∷ [];
        ready = record {
          pooled = ap (λ (z : Sched T). z.pool) is ∙ same;
          tasks = HasTask-append q t k h.ready.tasks;
          threads = ap (λ (z : Sched T). length z.queues) is ∙ h.ready.threads;
          queues = subst (λ (z : Sched T). All IsValid z.queues) (sym is) h.ready.queues;
        };
        bounded = omega (arith, length-append q (node t k ∷ []));
        kept = omega (
          arith,
          h.kept,
          pool_weight-append q (node t k ∷ []),
          ap (λ (z : Sched T). queues_weight f z.queues) is,
        );
      }

  round-IsSafe :
      (x : System T S) (sched : Sched T)
      → n ≤ 4
      → sched_round x.sched ≡ done sched
      → IsSafe x
      → IsSafe (record x { sched = sched })
  round-IsSafe x sched b e h =
      let (ready, _, weight) =
        subst (Returns _) e (sched_round-IsReady f n h.waiting x.sched h.ready b) in
      record {
        waiting = rest_of (get_total_empty_slots x.sched.queues) h.waiting;
        ready = ready;
        bounded =
            omega
              (arith, h.bounded, length-rest_of (get_total_empty_slots x.sched.queues) h.waiting);
        kept = omega (arith, h.kept, weight);
      }

  turn-IsSafe :
      (x : System T S) (q q' : ThreadQueue T) (world : S) (i head fuel : ℕ) (elapsed : Bool)
      → get_elem? x.sched.queues i ≡ some q
      → visit_slot proc fuel elapsed q head x.world ≡ done (some (q', world))
      → IsSafe x
      → IsSafe (record x {
        sched = record x.sched { queues = set x.sched.queues i q' };
        world = world;
        ended = freed_task q q' head ++ x.ended;
      })
  turn-IsSafe x q q' world i head fuel elapsed g e h =
      let v : IsValid q = All-get_elem? IsValid x.sched.queues i h.ready.queues g in
      let (v', weight) =
        subst (Gives (λ (r : ThreadQueue T × S). Keeps proc f q head r.0)) e
          (visit_slot-Keeps proc f fuel elapsed q head x.world v) in
      record {
        waiting = h.waiting;
        ready = record {
          pooled = h.ready.pooled;
          tasks = h.ready.tasks;
          threads = length-set x.sched.queues i q' ∙ h.ready.threads;
          queues = All-set IsValid x.sched.queues i q' h.ready.queues v';
        };
        bounded = h.bounded;
        kept = omega (
          arith,
          h.kept,
          queues_weight-swap x.sched.queues i (tasks_weight f (freed_task q q' head)) q q' g weight,
          tasks_weight-append (freed_task q q' head) x.ended,
        );
      }

  Step-IsSafe : {x y : System T S} → n ≤ 4 → Step proc x y → IsSafe x → IsSafe y
  Step-IsSafe b (submit {x = x} {sched = sched} {pool = pool} t k e is) h =
      submit-IsSafe x t k sched pool e is h
  Step-IsSafe b (round {x = x} {sched = sched} e) h = round-IsSafe x sched b e h
  Step-IsSafe b (turn {x = x} {q = q} {q' = q'} {world = world} i head fuel elapsed g e) h =
      turn-IsSafe x q q' world i head fuel elapsed g e h

  -- Fresh queues: valid, and with no task.
  abbrev pub Fresh : ℕ → List (ThreadQueue T) → Type 0
  Fresh m qs = (length qs ≡ m) × All IsValid qs × (queues_weight f qs ≡ 0)

  new_queue-IsValid : (i : ℕ) → IsValid (new_queue {T = T} i)
  unfolding empty_slots
  new_queue-IsValid i = record {
    four = refl;
    counted = omega arith;
    filled = (inl refl, (inl refl, (inl refl, (inl refl, tt))));
  }

  pub init_queues-Fresh : (m i : ℕ) → m + i ≤ 10 → Returns (Fresh m) (init_queues m i)
  unfolding init_queues
  init_queues-Fresh zero i h = (refl, tt, refl)
  init_queues-Fresh (suc m) i h =
      let below : ltb i 10 ≡ true = ground arith in
      rw (below, init_queues)
        (Returns-bind (Fresh m) (Fresh (suc m)) (init_queues m (i + 1)) _
          (init_queues-Fresh m (i + 1) (omega arith))
          (λ qs (l, v, w). (omega arith, (new_queue-IsValid i, v), omega arith)))

  init-IsSafe :
      (sched : Sched T) (world : S)
      → n ≤ 4
      → init_sched n new_task_pool ≡ done sched
      → IsSafe (record { sched = sched; world = world; submitted = []; ended = [] })
  unfolding init_sched new_task_pool
  init-IsSafe sched world b e =
      let made =
        Returns-bind (Fresh n) (λ (z : Sched T). (z.pool ≡ of_queue []) × Fresh n z.queues)
          (init_queues n 0) (λ qs. done (record { pool = new_task_pool; queues = qs }))
          (init_queues-Fresh n 0 (omega arith)) (λ qs h. (refl, h)) in
      let (empty, (l, v, w)) =
        subst (Returns (λ (z : Sched T). (z.pool ≡ of_queue []) × Fresh n z.queues)) e made in
      record {
        waiting = [];
        ready = record { pooled = empty; tasks = tt; threads = l; queues = v };
        bounded = omega arith;
        kept = omega arith;
      }

  -- With at most four threads, in every state that is reached from an empty pool, however tasks are
  -- added, the scheduler makes rounds and the worker threads turns: the queues are valid, at most
  -- twenty tasks wait, and no task is lost or made. For any weight of tasks those that wait, those
  -- in the slots and those that have ended together weigh what the tasks that the pool took weigh.
  pub Reach-IsSafe : {x : System T S} → n ≤ 4 → Reach proc n x → IsSafe x
  Reach-IsSafe b (here {sched = sched} world e) = init-IsSafe sched world b e
  Reach-IsSafe b (next r s) = Step-IsSafe b s (Reach-IsSafe b r)
