-- ===== src/Scheduler/Rotation.antt =====
-- Two rounds of a worker thread over its four slots.
use server_unit.Base.{
  ℕ, zero, suc, ◌+◌, ◌-◌, ◌≤◌, ◌<◌, ◌≡◌, refl, ap, ◌∙◌, inl, inr, Bool, false, Bool-cases, none,
  some, List, [], ◌∷◌, arith, length, get_elem?, get_elem?_out_of_range, All, ◌==◌, ltb,
  if◌then◌else◌, done,
}
use server_unit.Task.{Process}
use server_unit.Scheduler.{Slot, ThreadQueue, empty_slots}
use server_unit.Scheduler.Invariant.{IsValid}
use server_unit.Scheduler.Runner.{next_head, thread_task, visit_slot}
use server_unit.Scheduler.Drain.{
  Finishes, held_turns, left_at, left_at-le, Turned, visit_slot-Turns,
}

-- How many of the next turns are at the slot `k`.
visits : ℕ → ℕ → ℕ → ℕ
unfolding next_head
visits k head zero = 0
visits k head (suc n) = (if k == head then 1 else 0) + visits k (next_head head) n

visits_twice : (k head : ℕ) → k < 4 → head < 4 → visits k head 8 ≡ 2
unfolding visits
visits_twice k zero l h = ground arith
visits_twice k (suc zero) l h = ground arith
visits_twice k (suc (suc zero)) l h = ground arith
visits_twice k (suc (suc (suc zero))) l h = ground arith
visits_twice k (suc (suc (suc (suc head)))) l h = absurd (omega arith)

next_head-lt : (head : ℕ) → next_head head < 4
unfolding next_head
next_head-lt head = omega arith

module _ {T S : Type 0} (proc : T → Process S) (f : ℕ) (P : S → Type 0) where
  thread_task_next :
      (turns : ℕ) (elapsed : ℕ → Bool) (q q' : ThreadQueue T) (head : ℕ) (s s' : S)
      → q.thread_should_stop ≡ false
      → visit_slot proc (suc f) (elapsed turns) q head s ≡ done (some (q', s'))
      → thread_task proc (suc turns) (suc f) elapsed q head s
        ≡ thread_task proc turns (suc f) elapsed q' (next_head head) s'
  unfolding thread_task
  thread_task_next turns elapsed q q' head s s' runs e = rw e (rw runs refl)

  -- After the turns each slot needs as many less as it was visited.
  abbrev Rotated : ℕ → (ℕ → Bool) → ThreadQueue T → ℕ → S → Type 0
  Rotated turns elapsed q head s =
      (q' : ThreadQueue T) × (head' : ℕ) × (s' : S) × (thread_task proc turns (suc f) elapsed q head
          s
        ≡ done (some (q', head', s')))
      × IsValid q'
      × All (Finishes proc f P) q'.slots
      × ((k : ℕ) → left_at proc f P q'.slots k ≤ left_at proc f P q.slots k - visits k head turns)
      × P s'

  one_turn :
      (q q' : ThreadQueue T) (head k : ℕ)
      → Turned proc f P q q' head
      → left_at proc f P q'.slots k ≤ left_at proc f P q.slots k - (if k == head then 1 else 0)
  one_turn q q' head k t = elim (Bool-cases (k == head)) [
    | inl same ↦ let is : k ≡ head = ground arith in rw same (rw is t.here)
    | inr other ↦ rw other (omega (arith, t.elsewhere k (λ e. ground arith)))
  ]

  none_left :
      (q q' : ThreadQueue T) (head k : ℕ)
      → head < 4
      → IsValid q
      → left_at proc f P q'.slots k ≤ left_at proc f P q.slots k - visits k head 8
      → left_at proc f P q'.slots k ≡ 0
  none_left q q' head k l v less = elim (Bool-cases (ltb k 4)) [
    | inl below ↦
        let twice : visits k head 8 ≡ 2 = visits_twice k head (ground arith) l in
        omega (arith, twice, left_at-le proc f P q.slots k)
    | inr above ↦
        let out : get_elem? q.slots k ≡ none =
          get_elem?_out_of_range q.slots k (ground (arith, v.four)) in
        omega (arith, ap (held_turns proc f P) out)
  ]

  thread_task-Rotated :
      (turns : ℕ) (elapsed : ℕ → Bool) (q : ThreadQueue T) (head : ℕ) (s : S)
      → IsValid q
      → All (Finishes proc f P) q.slots
      → P s
      → head < 4
      → q.thread_should_stop ≡ false
      → Rotated turns elapsed q head s
  unfolding visits
  thread_task-Rotated zero elapsed q head s v fin p l runs =
      (q, head, s, unfold thread_task in refl, v, fin, (λ k. omega arith), p)
  thread_task-Rotated (suc turns) elapsed q head s v fin p l runs =
      let (q₁, s₁, e, t, p₁) = visit_slot-Turns proc f P (elapsed turns) q head s v fin p l in
      let (q', head', s', e', v', fin', less, p') =
        thread_task-Rotated turns elapsed q₁ (next_head head) s₁ t.valid t.finishes p₁
          (next_head-lt head) (t.goes_on ∙ runs) in
      (
        q',
        head',
        s',
        thread_task_next turns elapsed q q₁ head s s₁ runs e ∙ e',
        v',
        fin',
        (λ k. omega (arith, less k, one_turn q q₁ head k t)),
        p',
      )

  empty_slots-All :
      (ss : List (Slot T))
      → All (Finishes proc f P) ss
      → ((k : ℕ) → left_at proc f P ss k ≡ 0)
      → empty_slots ss ≡ length ss
  unfolding empty_slots
  empty_slots-All [] fin none_left = refl
  empty_slots-All (slot ∷ ss) fin none_left =
      ground (arith, fin.0, none_left 0, empty_slots-All ss fin.1 (λ k. none_left (suc k)))

  -- Let `P` be a set of worlds that the `end_proc` of each job in a valid queue keeps to. If each
  -- job has ended, or is pending and its task, started again and again from any world in `P`, ends
  -- in a world in `P` after at most `f` pending starts, and the stop flag is not set, then from a
  -- world in `P` eight turns of the thread, from any slot, with fuel for `f` + 1 starts in a turn,
  -- all return and leave the queue with no job: each was ended and its slot freed.
  pub thread_task-Finishes :
      (elapsed : ℕ → Bool) (q : ThreadQueue T) (head : ℕ) (s : S)
      → IsValid q
      → All (Finishes proc f P) q.slots
      → P s
      → head < 4
      → q.thread_should_stop ≡ false
      → (q' : ThreadQueue T) × (head' : ℕ) × (s' : S) × (thread_task proc 8 (suc f) elapsed q head s
          ≡ done (some (q', head', s')))
        × IsValid q'
        × (empty_slots q'.slots ≡ 4)
        × (q'.total_jobs_in_queue ≡ 0)
  thread_task-Finishes elapsed q head s v fin p l runs =
      let (q', head', s', e, v', fin', less, _) =
        thread_task-Rotated 8 elapsed q head s v fin p l runs in
      let all_done : empty_slots q'.slots ≡ length q'.slots =
        empty_slots-All q'.slots fin' (λ k. none_left q q' head k l v (less k)) in
      (q', head', s', e, v', omega (arith, v'.four), omega (arith, v'.counted, v'.four))
