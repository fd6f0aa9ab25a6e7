-- ===== src/Start/Examples.antt =====
-- The first message to a server that was just started.
use server_unit.Base.{
  ℕ, ◌≡◌, refl, false, Option, none, some, [], ◌∷◌, String, str_eq, if◌then◌else◌, done,
}
use server_unit.Base.{arith, length, All, true}
use server_unit.Base.Int.{pos}
use server_unit.Sql.Concrete.{statements}
use server_unit.Scheduler.Invariant.{IsValid}
use server_unit.Scheduler.System.{Reach}
use server_unit.Socket.Session.{ErrorCode, success}
use server_unit.Start.Program.{Answers, Program, run_main, system, to_uint8, run_main-starts}
use server_unit.Task.{sp_handshake, Process, job_done, is_flag_set}
use server_unit.Json.{create}
use server_unit.Json.Concrete.{Value, empty, values, schemas}
use server_unit.Registry.{get_worker_from_uid, to_string}
use server_unit.State.{Server, Task}
use server_unit.Status.Examples.{result_packet}
use server_unit.Socket.Messages.{IsMessage, reply}
use server_unit.Start.{start_server, IsStarted, start_server-greets}

abbrev parse : String → Option Value
parse text = if str_eq text "hello" then some (result_packet 2) else none

is_message : IsMessage values {D = ℕ} schemas parse "hello" "5" (result_packet 2)
is_message = record { parsed = refl; valid = refl; present = refl; named = refl }

start_server-greets_example :
    (s s' : Server Value ℕ) × (start_server true (λ p. (false, 0)) ≡ done s)
    × IsStarted s
    × (reply values schemas parse (λ k. 77) 0 (λ k t. t) "hello" s 1
        ≡ done (some (create values sp_handshake (to_string 77) empty, s')))
    × (get_worker_from_uid (to_string 77) s'.registry ≡ some s.next_address)
    × (s'.new_worker_list ≡ to_string 77 ∷ [])
start_server-greets_example =
    start_server-greets values schemas parse true (λ p. (false, 0)) 0 (λ k. 77) 0 (λ k t. t) "hello"
      "5" (result_packet 2) is_message

abbrev answers : Answers
answers = record {
  address = "::1";
  port = pos 8080;
  socket_threads = pos 2;
  max_threads = pos 3;
  dir = "";
  name = "";
  username = "";
  password = "";
}

abbrev no_error : String → ℕ → ErrorCode × ErrorCode × ErrorCode × ErrorCode
no_error address port = (success, success, success, success)

-- Tasks that do nothing.
abbrev finished : Task → Process ℕ
finished t = record {
  start_proc = λ s. (job_done, s);
  pause_proc = none;
  end_proc = λ status s. (status, s);
}

run_main-starts_example :
    (p : Program Value ℕ String) × (run_main
        (statements true)
        (λ text. some text)
        no_error
        (λ p. (false, 0))
        answers
      ≡ done p)
    × IsStarted p.server
    × (p.sched.pool ≡ p.server.task_pool)
    × (length p.sched.queues ≡ to_uint8 answers.max_threads)
    × All IsValid p.sched.queues
    × Reach finished (to_uint8 answers.max_threads) (system p.sched 0)
    × (is_flag_set p.monitor_stop ≡ false)
    × (p.service.running ≡ p.service.concurrency)
unfolding to_uint8
run_main-starts_example =
    run_main-starts (statements true) (λ text. some text) no_error (λ p. (false, 0)) answers "::1"
      refl finished 0 (omega arith)
