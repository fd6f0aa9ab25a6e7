-- ===== src/Scheduler/Weight.antt =====
-- The tasks that wait in the pool and in the queues, counted by a weight: what keeps the sum for
-- every weight loses no task and makes none.
use server_unit.Base.{
  ℕ, zero, suc, ◌+◌, ◌<◌, ◌≡◌, none, some, List, [], ◌∷◌, arith, get_elem?, set, if◌then◌else◌,
}
use server_unit.Pool.{TaskPoolNode}
use server_unit.Scheduler.{QueueJob, Slot, ThreadQueue, empty_slots, fill_slot}

module _ {T : Type 0} (f : T → ℕ) where
  abbrev pub node_weight : TaskPoolNode T → ℕ
  node_weight x = elim x.task_item [ none ↦ 0 | some t ↦ f t ]

  abbrev pub pool_weight : List (TaskPoolNode T) → ℕ
  pool_weight [] = 0
  pool_weight (x ∷ xs) = node_weight x + pool_weight xs

  abbrev pub tasks_weight : List T → ℕ
  tasks_weight [] = 0
  tasks_weight (t ∷ ts) = f t + tasks_weight ts

  -- A slot that is done holds no task.
  abbrev pub slot_weight : Slot T → ℕ
  slot_weight s = if s.slot_done then 0 else elim s.job [ none ↦ 0 | some j ↦ f j.task ]

  abbrev pub slots_weight : List (Slot T) → ℕ
  slots_weight [] = 0
  slots_weight (s ∷ ss) = slot_weight s + slots_weight ss

  abbrev pub queues_weight : List (ThreadQueue T) → ℕ
  queues_weight [] = 0
  queues_weight (q ∷ qs) = slots_weight q.slots + queues_weight qs

  pub slots_weight-fill_slot :
      (j : QueueJob T) (ss : List (Slot T))
      → 0 < empty_slots ss
      → slots_weight (fill_slot j ss) ≡ f j.task + slots_weight ss
  unfolding fill_slot empty_slots
  slots_weight-fill_slot j [] h = omega arith
  slots_weight-fill_slot j (s ∷ ss) h = ground (arith, slots_weight-fill_slot j ss)

  pub queues_weight-set :
      (qs : List (ThreadQueue T)) (i w : ℕ) (q q' : ThreadQueue T)
      → get_elem? qs i ≡ some q
      → slots_weight q'.slots ≡ w + slots_weight q.slots
      → queues_weight (set qs i q') ≡ w + queues_weight qs
  queues_weight-set [] i w q q' g e = absurd (cc)
  queues_weight-set (p ∷ qs) zero w q q' g e = ground arith
  queues_weight-set (p ∷ qs) (suc i) w q q' g e = ground (arith, queues_weight-set qs i w q q' g e)
