-- ===== src/Scheduler/Invariant.antt =====
-- What holds of the thread queues between two steps, and of a queue that takes a job.
use server_unit.Base.{
  ℕ, ◌+◌, ◌≤◌, ◌<◌, ◌≡◌, refl, ◌⊎◌, inr, true, some, List, [], ◌∷◌, arith, length, All,
  get_elem?_in_range, All-get_elem?, All-if, Returns,
}
use server_unit.Scheduler.{QueueJob, Slot, ThreadQueue, slot_wait, empty_slots, fill_slot}

module _ {T : Type 0} where
  -- A slot that is not done holds a job, with one of the time slices.
  abbrev pub IsFilled : Slot T → Type 0
  IsFilled s =
      (s.slot_done ≡ true) ⊎ ((j : QueueJob T) × (s.job ≡ some j) × (j.cpu_slice_ms ≤ 6000000))

  -- Four slots, and the count of jobs is the number of slots that are not done.
  pub record IsValid (q : ThreadQueue T) : Type 0 where
    pub four : length q.slots ≡ 4
    pub counted : q.total_jobs_in_queue + empty_slots q.slots ≡ 4
    pub filled : All IsFilled q.slots

  -- Of a valid queue each slot can be read, and none waits longer than the longest slice.
  pub slot_wait-le :
      (q : ThreadQueue T) (i : ℕ) → IsValid q → i < 4 → Returns (λ w. w ≤ 6000000) (slot_wait q i)
  unfolding slot_wait
  slot_wait-le q i v h =
      let (s, e) = get_elem?_in_range q.slots i (omega arith) in
      rw (e, slot_wait) (ground (arith, All-get_elem? IsFilled q.slots i v.filled e))

  pub length-fill_slot : (j : QueueJob T) (ss : List (Slot T)) → length (fill_slot j ss) ≡ length ss
  unfolding fill_slot
  length-fill_slot j [] = refl
  length-fill_slot j (s ∷ ss) = ground (arith, length-fill_slot j ss)

  pub empty_slots-fill_slot :
      (j : QueueJob T) (ss : List (Slot T))
      → 0 < empty_slots ss
      → empty_slots (fill_slot j ss) + 1 ≡ empty_slots ss
  unfolding fill_slot empty_slots
  empty_slots-fill_slot j [] h = omega arith
  empty_slots-fill_slot j (s ∷ ss) h = ground (arith, empty_slots-fill_slot j ss)

  pub fill_slot-IsFilled :
      (j : QueueJob T) (ss : List (Slot T))
      → j.cpu_slice_ms ≤ 6000000
      → All IsFilled ss
      → All IsFilled (fill_slot j ss)
  unfolding fill_slot
  fill_slot-IsFilled j [] h f = tt
  fill_slot-IsFilled j (s ∷ ss) h f =
      All-if IsFilled s.slot_done _ _ (inr (j, refl, h), f.1) (f.0, fill_slot-IsFilled j ss h f.1)
