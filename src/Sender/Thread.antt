-- ===== src/Sender/Thread.antt =====
-- The sender core as a job of the scheduler.
use server_unit.Base.{
  ℕ, suc, ◌≤◌, ◌≡◌, refl, sym, subst, ◌∙◌, Bool, none, some, Outcome, done, blocked, fault,
  WhenDone, WhenDone-then, WhenDone-if, length, ◌==◌, if◌then◌else◌, ◌>>=◌,
}
use server_unit.Base.Int.{ℤ, pos}
use server_unit.Task.{JobStatus, job_pending, Process}
use server_unit.Double.{DoubleLib}
use server_unit.Json.{JsonLib}
use server_unit.State.{Server, Task}
use server_unit.Scheduler.{QueueJob, ThreadQueue}
use server_unit.Scheduler.Runner.{visit_slot}
use server_unit.Scheduler.Progress.{run_job-endless}
use server_unit.Scheduler.System.{System, Reach}
use server_unit.Scheduler.Stuck.{Occupies}
use server_unit.Scheduler.Exit.{exit_sched}
use server_unit.Scheduler.Shutdown.{Steps, exit_sched-endless}
use server_unit.Scheduler.Finish.{Holds, visit_slot-eq}
use server_unit.Sender.Ideal.{is_nonzero_int}
use server_unit.Sender.Push.{push_new, push_pending_packets, start_sender_core}

module _ (J : JsonLib) (F : DoubleLib) where
  open J use {Json}
  open F use {Double}

  abbrev World : Type 0
  World = Outcome (Server Json Double)

  -- Whatever it did, the sender core asks to be started again.
  start_sender_core-pending :
      (s : Server Json Double) → WhenDone (λ r. r.0 ≡ job_pending) (start_sender_core J F s)
  unfolding start_sender_core
  start_sender_core-pending s =
      let Q = λ (r : JobStatus × Server Json Double). r.0 ≡ job_pending in
      WhenDone-then Q
        (if length s.pending_packets_list == 0 then done (pos 0, s) else push_pending_packets J F s)
        (λ (r : ℤ × Server Json Double).
          if is_nonzero_int r.0
          then done (job_pending, r.1)
          else (do s' ← push_new J F r.1; done (job_pending, s')))
        (λ (r : ℤ × Server Json Double).
          WhenDone-if Q (is_nonzero_int r.0) (done (job_pending, r.1))
            (do s' ← push_new J F r.1; done (job_pending, s')) refl
            (WhenDone-then Q (push_new J F r.1) (λ s'. done (job_pending, s')) (λ s'. refl)))

  -- A result of the call; a thread that blocks or faults stays so.
  pub thread : Outcome (JobStatus × Server Json Double) → JobStatus × World
  thread (done r) = (r.0, done r.1)
  thread blocked = (job_pending, blocked)
  thread fault = (job_pending, fault)

  pub start_proc : World → JobStatus × World
  unfolding thread
  start_proc (done s) = thread (start_sender_core J F s)
  start_proc blocked = (job_pending, blocked)
  start_proc fault = (job_pending, fault)

  -- `senderCoreProcess`.
  pub sender_process : Process World
  unfolding start_proc
  sender_process = record {
    start_proc = start_proc;
    pause_proc = some (λ w. (job_pending, w));
    end_proc = λ status w. (JobStatus.job_done, w);
  }

  thread_lem :
      (m : Outcome (JobStatus × Server Json Double))
      → WhenDone (λ r. r.0 ≡ job_pending) m
      → (thread m).0 ≡ job_pending
  unfolding thread
  thread_lem (done r) h = h
  thread_lem blocked h = refl
  thread_lem fault h = refl

  start_proc-pending : (w : World) → (sender_process.start_proc w).0 ≡ job_pending
  unfolding sender_process start_proc
  start_proc-pending (done s) = thread_lem (start_sender_core J F s) (start_sender_core-pending s)
  start_proc-pending blocked = refl
  start_proc-pending fault = refl

  -- A thread whose turn comes to a slot with the sender core, its job pending, never leaves that
  -- slot, whatever the sender core does: the turn does not end for any fuel, so that no other slot of
  -- the queue is visited again.
  pub visit_slot-sender :
      (proc : Task → Process World) (fuel : ℕ) (elapsed : Bool) (q : ThreadQueue Task) (head : ℕ)
      (job : QueueJob Task) (w : World)
      → Holds q head job
      → proc job.task ≡ sender_process
      → job.job_status ≡ job_pending
      → visit_slot proc fuel elapsed q head w ≡ done none
  visit_slot-sender proc fuel elapsed q head job w h is pending =
      visit_slot-eq proc fuel elapsed q head w job h
      ∙ rw
          (run_job-endless proc fuel elapsed job w
            (λ v.
              subst (λ (p : Process World). (p.start_proc v).0 ≡ job_pending) (sym is)
                (start_proc-pending v))
            pending)
          refl

  -- With at most four threads, once the sender core is in a slot, `exit_sched` does not return for
  -- any fuel, however tasks are added and the threads take their turns between its polls.
  pub exit_sched-sender :
      (proc : Task → Process World) (n i head : ℕ) (job : QueueJob Task) (fuel : ℕ)
      (states : ℕ → System Task World)
      → n ≤ 4
      → proc job.task ≡ sender_process
      → job.job_status ≡ job_pending
      → Reach proc n (states 0)
      → Occupies i head job (states 0).sched.queues
      → ((k : ℕ) → Steps proc (states k) (states (suc k)))
      → exit_sched fuel (λ k. (states k).sched) ≡ none
  exit_sched-sender proc n i head job fuel states b is pending reach there go =
      exit_sched-endless proc n i head job b
        (λ v.
          subst (λ (p : Process World). (p.start_proc v).0 ≡ job_pending) (sym is)
            (start_proc-pending v))
        pending fuel states reach there go
