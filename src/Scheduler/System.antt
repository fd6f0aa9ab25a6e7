-- ===== src/Scheduler/System.antt =====
-- The pool, the scheduler thread and the worker threads together: their turns in any order.
use server_unit.Base.{
  ℕ, ◌≡◌, Bool, none, some, List, [], ◌∷◌, ◌++◌, get_elem?, set, if◌then◌else◌, done,
}
use server_unit.Base.Int.{pos}
use server_unit.Task.{TaskPriority, Process}
use server_unit.Pool.{TaskPool, new_task_pool, add_task}
use server_unit.Scheduler.{ThreadQueue, Slot, Sched, init_sched, sched_round}
use server_unit.Scheduler.Runner.{visit_slot}

-- `submitted` and `ended` are the tasks that the pool has taken and those whose slot was freed; the
-- program has no such lists. `world` is all that the functions of the jobs reach.
pub record System (T S : Type 0) : Type 0 where
  pub sched : Sched T
  pub world : S
  pub submitted : List T
  pub ended : List T

module _ {T : Type 0} where
  abbrev pub task_of : Slot T → List T
  task_of slot = elim slot.job [ none ↦ [] | some j ↦ j.task ∷ [] ]

  -- The task of the slot `head`, if the slot is done in `q'` and was not in `q`.
  unfoldable pub freed_task : ThreadQueue T → ThreadQueue T → ℕ → List T
  freed_task q q' head = elim (get_elem? q.slots head) [
    | none ↦ []
    | some old ↦ if old.slot_done then [] else elim (get_elem? q'.slots head) [
      | none ↦ []
      | some new ↦ if new.slot_done then task_of old else []
    ]
  ]

module _ {T S : Type 0} (proc : T → Process S) where
  -- A task is taken by the pool, the scheduler makes a round, or a worker thread a turn at a slot.
  pub data Step : System T S → System T S → Type 0 where
    submit :
        {x : System T S} {sched : Sched T} {pool : TaskPool T} (t : T) (k : TaskPriority)
        → add_task x.sched.pool t k ≡ done (pos 0, pool)
        → sched ≡ record x.sched { pool = pool }
        → Step x (record x { sched = sched; submitted = t ∷ x.submitted })
    round :
        {x : System T S} {sched : Sched T}
        → sched_round x.sched ≡ done sched
        → Step x (record x { sched = sched })
    turn :
        {x : System T S} {q q' : ThreadQueue T} {world : S} (i head fuel : ℕ) (elapsed : Bool)
        → get_elem? x.sched.queues i ≡ some q
        → visit_slot proc fuel elapsed q head x.world ≡ done (some (q', world))
        → Step x (record x {
          sched = record x.sched { queues = set x.sched.queues i q' };
          world = world;
          ended = freed_task q q' head ++ x.ended;
        })

  -- The states that follow `init_sched` of `n` threads on an empty pool.
  pub data Reach (n : ℕ) : System T S → Type 0 where
    here :
        {sched : Sched T} (world : S)
        → init_sched n new_task_pool ≡ done sched
        → Reach n (record { sched = sched; world = world; submitted = []; ended = [] })
    next : {x y : System T S} → Reach n x → Step x y → Reach n y
