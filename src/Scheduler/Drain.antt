-- ===== src/Scheduler/Drain.antt =====
-- That a worker thread ends the jobs of its queue.
use server_unit.Base.{
  ℕ, suc, ◌+◌, ◌-◌, ◌≤◌, ◌<◌, ◌≡◌, ◌≢◌, ◌⊎◌, refl, sym, ap, inl, inr, Bool, true, false, Bool-cases,
  Option, none, some, List, arith, get_elem?, get_elem?_in_range, get_elem?-set_same,
  get_elem?-set_other, set, All, All-set, All-get_elem?, if◌then◌else◌, done,
}
use server_unit.Task.{JobStatus, job_pending, Process}
use server_unit.Scheduler.{QueueJob, Slot, ThreadQueue}
use server_unit.Scheduler.Invariant.{IsValid}
use server_unit.Scheduler.Progress.{EndsIn}
use server_unit.Scheduler.Finish.{Holds, ran_slot, visit_slot_runs, visit_slot_frees}
use server_unit.Scheduler.Runner.{Ran, is_ended, store_job, end_job, visit_slot}

module _ {T S : Type 0} (proc : T → Process S) (f : ℕ) (P : S → Type 0) where
  -- Started in a world in `P`, the task is pending at most `f` times before it ends, in a world in
  -- `P` again.
  abbrev pub AlwaysEnds : T → Type 0
  AlwaysEnds t =
      (s : S)
      → P s
      → (n : ℕ) × (status : JobStatus) × (s' : S) × EndsIn proc t status s' n s × (n ≤ f) × P s'

  -- Its `end_proc` keeps to `P`.
  abbrev pub EndKeeps : T → Type 0
  EndKeeps t = (status : JobStatus) (s : S) → P s → P ((proc t).end_proc status s).1

  -- The job has ended, or its task will.
  abbrev pub WillEnd : QueueJob T → Type 0
  WillEnd job =
      EndKeeps job.task
      × ((is_ended job.job_status ≡ true) ⊎ ((job.job_status ≡ job_pending) × AlwaysEnds job.task))

  -- The slot is done, or holds such a job.
  abbrev pub Finishes : Slot T → Type 0
  Finishes slot =
      (slot.slot_done ≡ true)
      ⊎ ((job : QueueJob T) × (slot.job ≡ some job) × (job.cpu_slice_ms ≤ 6000000) × WillEnd job)

  -- How many turns the slot still needs.
  abbrev pub turns_left : Slot T → ℕ
  turns_left slot =
      if slot.slot_done
      then 0
      else elim slot.job [ none ↦ 0 | some job ↦ if is_ended job.job_status then 1 else 2 ]

  turns_left-done : (slot : Slot T) → slot.slot_done ≡ true → turns_left slot ≡ 0
  turns_left-done slot d = ground arith

  abbrev pub held_turns : Option (Slot T) → ℕ
  held_turns none = 0
  held_turns (some slot) = turns_left slot

  abbrev pub left_at : List (Slot T) → ℕ → ℕ
  left_at ss k = held_turns (get_elem? ss k)

  left_at-some :
      (ss : List (Slot T)) (k : ℕ) (slot : Slot T)
      → get_elem? ss k ≡ some slot
      → left_at ss k ≡ turns_left slot
  left_at-some ss k slot e = ap held_turns e

  pub left_at-le : (ss : List (Slot T)) (k : ℕ) → left_at ss k ≤ 2
  left_at-le ss k = ground arith

  -- What a turn at `head` leaves.
  pub record Turned (q q' : ThreadQueue T) (head : ℕ) : Type 0 where
    pub valid : IsValid q'
    pub finishes : All Finishes q'.slots
    pub goes_on : q'.thread_should_stop ≡ q.thread_should_stop
    pub here : left_at q'.slots head ≤ left_at q.slots head - 1
    pub elsewhere : (k : ℕ) → k ≢ head → left_at q'.slots k ≡ left_at q.slots k

  store_job-Turned :
      (q : ThreadQueue T) (head : ℕ) (job : QueueJob T) (r : Ran T S)
      → Holds q head job
      → All Finishes q.slots
      → IsValid (store_job q head r)
      → Finishes (ran_slot r)
      → turns_left (ran_slot r) + 1 ≤ turns_left (record { job = some job; slot_done = false })
      → Turned q (store_job q head r) head
  unfolding store_job
  store_job-Turned q head job r h fin v new less = record {
    valid = v;
    finishes = All-set Finishes q.slots head (ran_slot r) fin new;
    goes_on = refl;
    here = omega (
      arith,
      less,
      left_at-some (set q.slots head (ran_slot r)) head (ran_slot r)
          (get_elem?-set_same q.slots head (ran_slot r) h.held),
      left_at-some q.slots head _ h.held,
    );
    elsewhere =
        λ k ne. ap held_turns (get_elem?-set_other q.slots head k (ran_slot r) (λ e. ne (sym e)));
  }

  stays :
      (q : ThreadQueue T) (head : ℕ) (slot : Slot T)
      → IsValid q
      → All Finishes q.slots
      → get_elem? q.slots head ≡ some slot
      → slot.slot_done ≡ true
      → Turned q q head
  stays q head slot v fin e d = record {
    valid = v;
    finishes = fin;
    goes_on = refl;
    here = omega (arith, left_at-some q.slots head slot e, turns_left-done slot d);
    elsewhere = λ k ne. refl;
  }

  abbrev pub Turns : Bool → ThreadQueue T → ℕ → S → Type 0
  Turns elapsed q head s =
      (q' : ThreadQueue T) × (s' : S) × (visit_slot proc (suc f) elapsed q head s
        ≡ done (some (q', s')))
      × Turned q q' head
      × P s'

  visit_slot-done :
      (elapsed : Bool) (q : ThreadQueue T) (head : ℕ) (s : S) (slot : Slot T)
      → get_elem? q.slots head ≡ some slot
      → slot.slot_done ≡ true
      → visit_slot proc (suc f) elapsed q head s ≡ done (some (q, s))
  unfolding visit_slot
  visit_slot-done elapsed q head s slot e d = rw (e, visit_slot) (rw d refl)

  visit_ended :
      (elapsed : Bool) (q : ThreadQueue T) (head : ℕ) (s : S) (job : QueueJob T)
      → Holds q head job
      → All Finishes q.slots
      → P s
      → EndKeeps job.task
      → is_ended job.job_status ≡ true
      → Turns elapsed q head s
  unfolding end_job
  visit_ended elapsed q head s job h fin p keeps ended =
      let (e, v, _) = visit_slot_frees proc f elapsed q head job s h ended in
      (
        _,
        _,
        e,
        store_job-Turned q head job (end_job proc job s) h fin v (inl refl)
            (rw ended (omega arith)),
        keeps job.job_status s p,
      )

  visit_pending :
      (elapsed : Bool) (q : ThreadQueue T) (head : ℕ) (s : S) (job : QueueJob T)
      → Holds q head job
      → All Finishes q.slots
      → P s
      → EndKeeps job.task
      → job.job_status ≡ job_pending
      → AlwaysEnds job.task
      → Turns elapsed q head s
  visit_pending elapsed q head s job h fin p keeps pending always =
      let (n, status, s', ends, le, p') = always s p in
      let (handle, (e, h', ended)) =
        visit_slot_runs proc (suc f) n elapsed q head job s s' status h ends (omega arith)
          pending in
      let job' : QueueJob T = record job { job_status = status; job_error_handle = handle } in
      let r : Ran T S = record { job = job'; finished = false; world = s' } in
      (
        _,
        _,
        e,
        store_job-Turned q head job r h fin h'.valid
            (inr (job', refl, h.sliced, (keeps, inl ended))) (rw ended (rw pending (omega arith))),
        p',
      )

  pub visit_slot-Turns :
      (elapsed : Bool) (q : ThreadQueue T) (head : ℕ) (s : S)
      → IsValid q
      → All Finishes q.slots
      → P s
      → head < 4
      → Turns elapsed q head s
  visit_slot-Turns elapsed q head s v fin p l =
      let (slot, e) = get_elem?_in_range q.slots head (omega (arith, v.four)) in
      elim (Bool-cases slot.slot_done) [
        | inl d ↦ (q, s, visit_slot-done elapsed q head s slot e d, stays q head slot v fin e d, p)
        | inr d ↦ elim (All-get_elem? Finishes q.slots head fin e) [
          | inl d' ↦ absurd (cc)
          | inr (job, is, sliced, (keeps, will)) ↦
              let h : Holds q head job = record {
                valid = v;
                held = ground arith;
                sliced = sliced;
              } in
              elim will [
                | inl ended ↦ visit_ended elapsed q head s job h fin p keeps ended
                | inr (pending, always) ↦
                    visit_pending elapsed q head s job h fin p keeps pending always
              ]
        ]
      ]
