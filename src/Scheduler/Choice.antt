-- ===== src/Scheduler/Choice.antt =====
-- The queue that `get_quickest_queue` chooses.
use server_unit.Base.{
  ℕ, zero, suc, ◌+◌, ◌*◌, ◌%◌, ◌^◌, ◌≤◌, ◌<◌, ◌≡◌, refl, sym, ap, subst, ◌∙◌, ◌⊎◌, inl, inr, some,
  List, [], ◌∷◌, arith, length, get_elem?, get_elem?_out_of_range, All, All-get_elem?, leb, ltb,
  if◌then◌else◌, fault, Returns, Returns-bind, Returns-weaken, Returns-eq, Bool-cases,
}
use server_unit.Scheduler.{
  ThreadQueue, slot_wait, total_wait, consider, quickest_from, get_quickest_queue, int_max,
}
use server_unit.Scheduler.Invariant.{IsValid, slot_wait-le}

module _ {T : Type 0} where
  total_wait-le :
      (n : ℕ) (q : ThreadQueue T) (i acc : ℕ)
      → IsValid q
      → i < 4
      → acc + n * 6000000 < 2 ^ 31
      → Returns (λ w. w ≤ acc + n * 6000000) (total_wait n q i acc)
  unfolding total_wait
  total_wait-le zero q i acc v h b = omega arith
  total_wait-le (suc n) q i acc v h b =
      Returns-bind (λ w. w ≤ 6000000) _ (slot_wait q i) _ (slot_wait-le q i v h)
        λ w le.
          Returns-weaken _ _ (total_wait n q i ((acc + w) % 2 ^ 64))
            (total_wait-le n q i ((acc + w) % 2 ^ 64) v h (omega arith)) (λ r b'. omega arith)

  -- The queue takes another job.
  abbrev pub HasRoom : ThreadQueue T → Type 0
  HasRoom q = q.total_jobs_in_queue < 4

  -- From `best`, over the queues `qs` from index `i` on, the loop ends with an index of a queue
  -- with room, or with `best` after queues that are all full, unless `best` is real already.
  abbrev Found : List (ThreadQueue T) → ℕ → ℕ × ℕ → ℕ × ℕ → Type 0
  Found qs i best r =
      ((r ≡ best) × ((best.1 < int_max) ⊎ All (λ q. 4 ≤ q.total_jobs_in_queue) qs))
      ⊎ ((k : ℕ) × (q : ThreadQueue T) × (get_elem? qs k ≡ some q)
          × HasRoom q
          × (r.0 ≡ i + k)
          × (r.1 < int_max))

  real :
      (q : ThreadQueue T) (i : ℕ) (best : ℕ × ℕ) (w : ℕ)
      → HasRoom q
      → w ≤ 1530000000
      → Found (q ∷ []) i best (if ltb w best.1 then (i, w) else best)
  real q i best w room le = elim (Bool-cases (ltb w best.1)) [
    | inl e ↦ rw e (inr (0, q, refl, room, omega arith, omega arith))
    | inr e ↦ rw e (inl (refl, inl (ground arith)))
  ]

  consider-Found :
      (n : ℕ) (q : ThreadQueue T) (i : ℕ) (best : ℕ × ℕ)
      → IsValid q
      → i < 4
      → n ≤ 255
      → best.1 ≤ int_max
      → Returns (Found (q ∷ []) i best) (consider n q i best)
  unfolding consider
  consider-Found n q i best v h b l = elim (Bool-cases (leb 4 q.total_jobs_in_queue)) [
    | inl e ↦ rw (e, consider) (inl (refl, inr (ground arith, tt)))
    | inr e ↦
        rw (e, consider)
          (Returns-bind (λ w. w ≤ 1530000000) (Found (q ∷ []) i best) (total_wait n q i 0) _
            (Returns-weaken _ _ (total_wait n q i 0) (total_wait-le n q i 0 v h (omega arith))
              (λ r b'. omega arith))
            (λ w le. real q i best w (ground arith) le))
  ]

  Found-cons :
      (q : ThreadQueue T) (qs : List (ThreadQueue T)) (i : ℕ) (best mid r : ℕ × ℕ)
      → Found (q ∷ []) i best mid
      → Found qs (i + 1) mid r
      → Found (q ∷ qs) i best r
  Found-cons q qs i best mid r (inl (e, s)) (inl (e', s')) = inl (e' ∙ e, join s s')
    where
      join :
          (best.1 < int_max) ⊎ All (λ q. 4 ≤ q.total_jobs_in_queue) (q ∷ [])
          → (mid.1 < int_max) ⊎ All (λ q. 4 ≤ q.total_jobs_in_queue) qs
          → (best.1 < int_max) ⊎ All (λ q. 4 ≤ q.total_jobs_in_queue) (q ∷ qs)
      join (inl h) _ = inl h
      join (inr h) (inl h') = inl (rw (← e) h')
      join (inr h) (inr h') = inr (h.0, h')
  Found-cons q qs i best mid r (inl _) (inr (k, p, g, room, e, l)) =
      inr (suc k, p, g, room, omega arith, l)
  Found-cons q qs i best mid r (inr (zero, p, g, room, e, l)) (inl (e', s')) = inr (
    0,
    p,
    g,
    room,
    ap (λ (b : ℕ × ℕ). b.0) e' ∙ e,
    subst (λ (b : ℕ × ℕ). b.1 < int_max) (sym e') l,
  )
  Found-cons q qs i best mid r (inr (suc j, p, g, room, e, l)) (inl (e', s')) = absurd (cc)
  Found-cons q qs i best mid r (inr _) (inr (k, p, g, room, e, l)) =
      inr (suc k, p, g, room, omega arith, l)

  Found-le :
      (q : ThreadQueue T) (i : ℕ) (best mid : ℕ × ℕ)
      → best.1 ≤ int_max
      → Found (q ∷ []) i best mid
      → mid.1 ≤ int_max
  Found-le q i best mid l (inl (e, s)) = subst (λ (b : ℕ × ℕ). b.1 ≤ int_max) (sym e) l
  Found-le q i best mid l (inr (k, p, g, room, e, s)) = omega arith

  quickest_from-Found :
      (n : ℕ) (qs : List (ThreadQueue T)) (i : ℕ) (best : ℕ × ℕ)
      → All IsValid qs
      → i + length qs ≤ 4
      → n ≤ 255
      → best.1 ≤ int_max
      → Returns (Found qs i best) (quickest_from n qs i best)
  unfolding quickest_from
  quickest_from-Found n [] i best v h b l = inl (refl, inr tt)
  quickest_from-Found n (q ∷ qs) i best v h b l =
      Returns-bind (Found (q ∷ []) i best) (Found (q ∷ qs) i best) (consider n q i best) _
        (consider-Found n q i best v.0 (omega arith) b l)
        λ mid f.
          Returns-weaken (Found qs (i + 1) mid) _ (quickest_from n qs (i + 1) mid)
            (quickest_from-Found n qs (i + 1) mid v.1 (omega arith) b (Found-le q i best mid l f))
            (λ r g. Found-cons q qs i best mid r f g)

  -- With at most four valid queues, one of which has room, the call returns the index of a queue
  -- that has room.
  pub get_quickest_queue-HasRoom :
      (qs : List (ThreadQueue T)) (k : ℕ) (p : ThreadQueue T)
      → All IsValid qs
      → length qs ≤ 4
      → get_elem? qs k ≡ some p
      → HasRoom p
      → Returns
          (λ i. (q : ThreadQueue T) × (get_elem? qs i ≡ some q) × HasRoom q)
          (get_quickest_queue qs)
  unfolding get_quickest_queue
  get_quickest_queue-HasRoom qs k p v b g room =
      Returns-bind (Found qs 0 (0, int_max)) _ (quickest_from (length qs) qs 0 (0, int_max)) _
        (quickest_from-Found (length qs) qs 0 (0, int_max) v (omega arith) (omega arith)
          (omega arith))
        (λ r f. chosen r f)
    where
      chosen :
          (r : ℕ × ℕ)
          → Found qs 0 (0, int_max) r
          → (q : ThreadQueue T) × (get_elem? qs r.0 ≡ some q) × HasRoom q
      chosen r (inl (e, inl l)) = absurd (omega arith)
      chosen r (inl (e, inr full)) =
          absurd (omega (arith, All-get_elem? (λ q. 4 ≤ q.total_jobs_in_queue) qs k full g))
      chosen r (inr (j, q, g', room', e, l)) =
          (q, subst (λ t. get_elem? qs t ≡ some q) (omega arith) g', room')

  consider-fault :
      (n : ℕ) (q : ThreadQueue T) (i : ℕ) (best : ℕ × ℕ)
      → IsValid q
      → HasRoom q
      → 4 ≤ i
      → consider (suc n) q i best ≡ fault
  unfolding consider total_wait slot_wait
  consider-fault n q i best v room h =
      ground (arith, get_elem?_out_of_range q.slots i (omega arith))

  quickest_from-fault :
      (n : ℕ) (qs : List (ThreadQueue T)) (i : ℕ) (best : ℕ × ℕ)
      → All IsValid qs
      → All HasRoom qs
      → 5 ≤ i + length qs
      → i ≤ 4
      → suc n ≤ 255
      → best.1 ≤ int_max
      → quickest_from (suc n) qs i best ≡ fault
  unfolding quickest_from
  quickest_from-fault n [] i best v room h l b le = absurd (omega arith)
  quickest_from-fault n (q ∷ qs) i best v room h l b le = elim (Bool-cases (ltb i 4)) [
    | inr e ↦ rw (consider-fault n q i best v.0 room.0 (ground arith))
    | inl e ↦
        let (mid, eq, f) =
          Returns-eq (Found (q ∷ []) i best) (consider (suc n) q i best)
            (consider-Found (suc n) q i best v.0 (ground arith) b le) in
        rw eq (
          quickest_from-fault n qs (i + 1) mid v.1 room.1 (omega arith) (ground arith) b
            (Found-le q i best mid le f))
  ]

  -- With five to 255 valid queues that all have room, the call reads past the four slots of the
  -- fifth queue: its behaviour is undefined.
  pub get_quickest_queue-fault :
      (qs : List (ThreadQueue T))
      → All IsValid qs
      → All HasRoom qs
      → 5 ≤ length qs
      → length qs ≤ 255
      → get_quickest_queue qs ≡ fault
  unfolding get_quickest_queue
  get_quickest_queue-fault [] v room h l = absurd (omega arith)
  get_quickest_queue-fault (q ∷ qs) v room h l = rw (
      quickest_from-fault (length qs) (q ∷ qs) 0 (0, int_max) v room (omega arith) (omega arith) l
        (omega arith))
