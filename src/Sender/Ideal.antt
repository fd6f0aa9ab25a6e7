-- ===== src/Sender/Ideal.antt =====
-- `findIdealWorker` of sender_unit/sender_core.cpp. A worker in the list is never NULL.
use server_unit.Base.{
  ℕ, zero, suc, ◌+◌, Bool, true, false, not, ◌&&◌, Option, none, some, List, [], ◌∷◌, String,
  str_eq, get_elem?, length, ◌==◌, if◌then◌else◌, Outcome, done, fault, ◌>>=◌,
}
use server_unit.Base.Int.{ℤ, pos, gtb_ℤ}
use server_unit.Task.{TaskPriority, priority_code, is_flag_set}
use server_unit.Double.{DoubleLib}
use server_unit.Worker.{Worker, WorkerStats, get_queue_size}
use server_unit.Registry.{Entry, WorkerRegistry, get_worker_from_uid}

abbrev pub is_nonzero_int : ℤ → Bool
is_nonzero_int (pos zero) = false
is_nonzero_int _ = true

module _ (F : DoubleLib) where
  open F use {Double, zero_double, add, mul_int, div_int, is_nonzero, leq, eq}

  -- What the loop over the workers carries: `finalworkerQueueSize`, `finalWorkerUid` and
  -- `finalWorkerPoints`. They are unset until `firstElement` is set.
  pub record Best : Type 0 where
    pub queue_size : ℤ
    pub uid : String
    pub points : Double

  -- `for(int i = taskPriority; i >= 0; i--)`, with `n` the rounds left, at the index `n - 1`; an
  -- index outside the vector is undefined.
  unfoldable pub avg_time : Double → List ℤ → ℕ → Double → Outcome Double
  avg_time queue_time tasks zero acc = done acc
  avg_time queue_time tasks (suc i) acc = elim (get_elem? tasks i) [
    | none ↦ fault
    | some n ↦
        avg_time queue_time tasks i
          (if is_nonzero_int n then add acc (mul_int queue_time n) else acc)
  ]

  -- The points of a worker for a task of the priority.
  unfoldable pub worker_points : TaskPriority → WorkerStats Double → Outcome Double
  unfolding avg_time
  worker_points priority stats = do
    t ← avg_time stats.avg_queue_time stats.task_queue (priority_code priority + 1) zero_double
    done (if is_nonzero t then div_int t stats.total_avilable_threads else zero_double)

  -- Whether the worker is looked at: it is ready and has sent its statistics.
  unfoldable pub is_candidate : Worker Double → Bool
  is_candidate w = is_flag_set w.worker_ready && not (length w.worker_stats.task_queue == 0)

  -- Whether the worker of `new` takes the place of the best one.
  unfoldable pub replaces : Option Best → Best → Bool
  replaces none new = true
  replaces (some best) new =
      leq new.points best.points
      && not (eq new.points best.points && gtb_ℤ new.queue_size best.queue_size)

  abbrev pub best_of : Worker Double → Double → Best
  best_of w points = record { queue_size = get_queue_size w; uid = w.worker_uid; points = points }

  unfoldable pub consider_worker :
      TaskPriority → Option Best → Worker Double → Outcome (Option Best)
  unfolding is_candidate replaces
  consider_worker priority best w =
      let judged = (do
        points ← worker_points priority w.worker_stats
        done (if replaces best (best_of w points) then some (best_of w points) else best)) in
      if is_candidate w then judged else done best

  unfoldable pub best_worker :
      TaskPriority → Option Best → List (Entry Double) → Outcome (Option Best)
  best_worker priority best [] = done best
  best_worker priority best (e ∷ es) = do
    best' ← consider_worker priority best e.worker
    best_worker priority best' es

  -- The address of the worker; NULL is none.
  unfoldable pub find_ideal_worker : TaskPriority → WorkerRegistry Double → Outcome (Option ℕ)
  find_ideal_worker priority r = do
    best ← best_worker priority none r.current_worker_list
    done (elim best [
      | none ↦ none
      | some b ↦ if str_eq b.uid "" then none else get_worker_from_uid b.uid r
    ])
