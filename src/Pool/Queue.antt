-- ===== src/Pool/Queue.antt =====
-- The linked list as a bounded first-in first-out queue.
use server_unit.Base.{
  ◌≤◌, ◌≡◌, refl, ap, some, List, [], ◌∷◌, ◌++◌, arith, length, length-append, ltb, if◌then◌else◌,
  Outcome, done, ◌>>=◌, Returns, Returns-of_eq,
}
use server_unit.Task.{TaskPriority}
use server_unit.Pool.{
  TaskPool, TaskPoolNode, new_task_pool, empty_node, link_tail, add_task, pop_task,
}

-- The calls on a pool.
pub data Call {ℓ} (T : Type ℓ) : Type ℓ where
  add : T → TaskPriority → Call T
  pop : Call T

module _ {ℓ} {T : Type ℓ} where
  -- The pool that holds the queue `q`: its lock is free, and its count is the length of the chain.
  abbrev pub of_queue : List (TaskPoolNode T) → TaskPool T
  of_queue q = record { task_pool_lock = 1; head_node = q; task_pool_count = length q }

  pub link_tail-append :
      (x : TaskPoolNode T) (xs : List (TaskPoolNode T)) → link_tail x xs ≡ xs ++ x ∷ []
  unfolding link_tail
  link_tail-append x [] = refl
  link_tail-append x (y ∷ xs) = ap (◌∷◌ y) (link_tail-append x xs)

  -- The queue that the pool stands for: waiting tasks, oldest first. A task that finds twenty
  -- waiting is refused.
  pub enqueue : T → TaskPriority → List (TaskPoolNode T) → List (TaskPoolNode T)
  enqueue t k q =
      if ltb (length q) 20 then q ++ record { task_item = some t; task_type = k } ∷ [] else q

  pub dequeue : List (TaskPoolNode T) → TaskPoolNode T × List (TaskPoolNode T)
  dequeue [] = (empty_node, [])
  dequeue (x ∷ q) = (x, q)

  -- The queue after a call, and the node that a pop hands out.
  pub step_queue : List (TaskPoolNode T) → Call T → List (TaskPoolNode T) × List (TaskPoolNode T)
  unfolding enqueue dequeue
  step_queue q (add t k) = (enqueue t k q, [])
  step_queue q pop = ((dequeue q).1, (dequeue q).0 ∷ [])

  unfoldable pub step : TaskPool T → Call T → Outcome (TaskPool T × List (TaskPoolNode T))
  step p (add t k) = do r ← add_task p t k; done (r.1, [])
  step p pop = do r ← pop_task p; done (r.1, r.0 ∷ [])

  -- All calls in turn, and the nodes handed out.
  unfoldable pub run : TaskPool T → List (Call T) → Outcome (TaskPool T × List (TaskPoolNode T))
  run p [] = done (p, [])
  run p (c ∷ cs) = do r ← step p c; rest ← run r.0 cs; done (rest.0, r.1 ++ rest.1)

  pub run_queue :
      List (TaskPoolNode T) → List (Call T) → List (TaskPoolNode T) × List (TaskPoolNode T)
  run_queue q [] = (q, [])
  run_queue q (c ∷ cs) =
      let r = step_queue q c in let rest = run_queue r.0 cs in (rest.0, r.1 ++ rest.1)

  step-of_queue :
      (q : List (TaskPoolNode T)) (c : Call T)
      → step (of_queue q) c ≡ done (of_queue (step_queue q c).0, (step_queue q c).1)
  unfolding step step_queue add_task pop_task
  step-of_queue q (add t k) = ground (
    arith,
    link_tail-append (record { task_item = some t; task_type = k }) q,
    length-append q (record { task_item = some t; task_type = k } ∷ []),
  )
  step-of_queue [] pop = ground arith
  step-of_queue (x ∷ q) pop = ground arith

  length-step_queue :
      (q : List (TaskPoolNode T)) (c : Call T) → length q ≤ 20 → length (step_queue q c).0 ≤ 20
  unfolding step_queue
  length-step_queue q (add t k) h =
      ground (arith, length-append q (record { task_item = some t; task_type = k } ∷ []))
  length-step_queue [] pop h = ground arith
  length-step_queue (x ∷ q) pop h = ground arith

  -- Any sequence of calls on a pool returns, hands out what the bounded first-in first-out queue
  -- hands out, and leaves the pool that holds the queue then.
  pub run-of_queue :
      (q : List (TaskPoolNode T)) (cs : List (Call T))
      → run (of_queue q) cs ≡ done (of_queue (run_queue q cs).0, (run_queue q cs).1)
  unfolding run run_queue
  run-of_queue q [] = refl
  run-of_queue q (c ∷ cs) = rw (step-of_queue q c) (rw (run-of_queue (step_queue q c).0 cs) refl)

  length-run_queue :
      (q : List (TaskPoolNode T)) (cs : List (Call T))
      → length q ≤ 20
      → length (run_queue q cs).0 ≤ 20
  unfolding run_queue
  length-run_queue q [] h = h
  length-run_queue q (c ∷ cs) h = length-run_queue (step_queue q c).0 cs (length-step_queue q c h)

-- From the empty pool, however the calls follow, at most twenty tasks wait, and the count is their
-- number.
pub run-new_task_pool_bounded {ℓ} :
    {T : Type ℓ} (cs : List (Call T))
    → Returns
        (λ r. (r.0.task_pool_count ≡ length r.0.head_node) × (length r.0.head_node ≤ 20))
        (run new_task_pool cs)
unfolding new_task_pool
run-new_task_pool_bounded cs =
    Returns-of_eq _ (run new_task_pool cs) (run-of_queue [] cs)
      (refl, length-run_queue [] cs (omega arith))
