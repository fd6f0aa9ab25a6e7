-- ===== src/Scheduler/Exit.antt =====
-- `exit_sched` of sched/task_scheduler.cpp. The worker threads and the scheduler thread go on while
-- it polls: `states k` is the scheduler at poll `k`.
use mathlib.Core.Option
use server_unit.Base.{
  ℕ, zero, suc, ◌+◌, ◌<◌, ◌≡◌, refl, ap, ◌∙◌, Bool, true, false, Option, none, some, List, [], ◌∷◌,
  arith, length, ltb, if◌then◌else◌, All,
}
use server_unit.Scheduler.{ThreadQueue, Sched, has_jobs}

-- The queues as they are when they are freed, and `sched_should_stop`.
pub record Stopped (T : Type 0) : Type 0 where
  pub queues : List (ThreadQueue T)
  pub sched_should_stop : Bool

ltb_lem : (n : ℕ) → (if ltb 0 n then true else false) ≡ ltb 0 n
ltb_lem n = ground arith

module _ {T : Type 0} where
  -- The loop that waits; none says that the fuel ran out.
  unfoldable pub wait_for_jobs : ℕ → (ℕ → Sched T) → ℕ → Option (Sched T)
  wait_for_jobs zero states k = none
  wait_for_jobs (suc fuel) states k =
      let rest = wait_for_jobs fuel states (k + 1) in
      if has_jobs (states k) then rest else some (states k)

  abbrev pub stop_queue : ThreadQueue T → ThreadQueue T
  stop_queue q = record q { thread_should_stop = true }

  -- The loop over the queues; `sched_should_stop` is written in its body.
  unfoldable pub stop_queues : List (ThreadQueue T) → Bool → Stopped T
  stop_queues [] stopped = record { queues = []; sched_should_stop = stopped }
  stop_queues (q ∷ qs) stopped =
      let rest = stop_queues qs true in record rest { queues = stop_queue q ∷ rest.queues }

  unfoldable pub exit_sched : ℕ → (ℕ → Sched T) → Option (Stopped T)
  unfolding wait_for_jobs stop_queues
  exit_sched fuel states =
      Option.map (λ (s : Sched T). stop_queues s.queues false) (wait_for_jobs fuel states 0)

  abbrev pub IsStopped : ThreadQueue T → Type 0
  IsStopped q = q.thread_should_stop ≡ true

  stop_queues-IsStopped :
      (qs : List (ThreadQueue T)) (b : Bool)
      → All IsStopped (stop_queues qs b).queues
        × (length (stop_queues qs b).queues ≡ length qs)
        × ((stop_queues qs b).sched_should_stop ≡ (if ltb 0 (length qs) then true else b))
  unfolding stop_queues
  stop_queues-IsStopped [] b = (tt, refl, refl)
  stop_queues-IsStopped (q ∷ qs) b =
      let (each, count, stop) = stop_queues-IsStopped qs true in
      ((refl, each), omega arith, ground arith)

  wait_for_jobs-some :
      (fuel n k m : ℕ) (states : ℕ → Sched T)
      → k + n ≡ m
      → ((j : ℕ) → j < m → has_jobs (states j) ≡ true)
      → has_jobs (states m) ≡ false
      → n < fuel
      → wait_for_jobs fuel states k ≡ some (states m)
  unfolding wait_for_jobs
  wait_for_jobs-some zero n k m states e busy over l = absurd (omega arith)
  wait_for_jobs-some (suc fuel) zero k m states e busy over l =
      let is : k ≡ m = omega arith in rw is (rw over refl)
  wait_for_jobs-some (suc fuel) (suc n) k m states e busy over l =
      rw (busy k (omega arith))
        (wait_for_jobs-some fuel n (k + 1) m states (omega arith) busy over (omega arith))

  -- If jobs are left at each poll before poll `n` and none at poll `n`, `exit_sched` returns after
  -- that poll, with the stop flag of every queue set, and that of the scheduler if there is a queue.
  pub exit_sched-stops :
      (fuel n : ℕ) (states : ℕ → Sched T)
      → ((j : ℕ) → j < n → has_jobs (states j) ≡ true)
      → has_jobs (states n) ≡ false
      → n < fuel
      → (r : Stopped T) × (exit_sched fuel states ≡ some r)
        × (length r.queues ≡ length (states n).queues)
        × All IsStopped r.queues
        × (r.sched_should_stop ≡ ltb 0 (length (states n).queues))
  unfolding exit_sched
  exit_sched-stops fuel n states busy over l =
      let qs = (states n).queues in
      let (each, count, stop) = stop_queues-IsStopped qs false in
      (
        stop_queues qs false,
        ap (Option.map (λ (s : Sched T). stop_queues s.queues false))
            (wait_for_jobs-some fuel n 0 n states (omega arith) busy over l),
        count,
        each,
        stop ∙ ltb_lem (length qs),
      )
