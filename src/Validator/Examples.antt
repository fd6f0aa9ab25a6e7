-- ===== src/Validator/Examples.antt =====
-- A final result in the receiver sink.
use server_unit.Base.{
  Returns-weaken, Outcome, false, none, All, inl, List, String, done, ℕ, ◌≡◌, refl, true, some, [],
  ◌∷◌, arith, inr, Returns,
}
use server_unit.Base.Int.{pos}
use server_unit.Config.{default_config}
use server_unit.Task.{
  JobStatus, Process, job_pending, job_done, low_priority, data_queued, data_final, sp_fres_ack,
}
use server_unit.Sink.{new_item}
use server_unit.Json.Concrete.{Value, values, schemas}
use server_unit.Sql.Concrete.{statements}
use server_unit.Registry.{get_worker_from_uid, find_uid, find_worker}
use server_unit.State.{Server}
use server_unit.Sender.Examples.{server, ready}
use server_unit.Status.Results.{final}
use server_unit.Status.Examples.{result_packet, packet}
use server_unit.DataPacket.{error_data}
use server_unit.Validator.{start_validator}
use server_unit.Scheduler.{QueueJob, ThreadQueue, empty_slot, empty_slots}
use server_unit.Scheduler.Invariant.{IsValid}
use server_unit.Scheduler.Runner.{thread_task}
use server_unit.Scheduler.Drain.{AlwaysEnds, EndKeeps, Finishes}
use server_unit.Scheduler.Rotation.{thread_task-Finishes}
use server_unit.Validator.Turns.{Drains, validator-AlwaysEnds, validator-EndKeeps}
use server_unit.Scheduler.Progress.{EndsIn}
use server_unit.Validator.Drain.{ReturnsTimes, validator_process, start_validator-EndsIn}
use server_unit.Validator.Results.{
  IsResult, written, status_written, Answered, start_validator-Answers,
}

abbrev receiving : Server Value ℕ
receiving = record server {
  receiver_sink = record {
    sink_item_list = new_item (result_packet 80) low_priority 0 ∷ [];
    sink_lock = 1;
    sink_limit = 20;
  };
}

is_result : IsResult values schemas (result_packet 80) 80 "5" "u" "1,2"
is_result = record {
  valid = refl;
  named = refl;
  has_data = refl;
  plain = refl;
  code_is = refl;
  uid_is = refl;
  id_is = refl;
  content_is = refl;
  present = refl;
}

start_validator-Answers_example :
    Returns
      (λ r.
        (r.0 ≡ job_pending)
        × (r.1
            ≡ status_written values schemas
                (statements true)
                default_config
                (λ w. some (pos 1))
                (error_data, packet)
                low_priority
                data_queued
                data_final
                "u"
                (written values schemas
                  (statements true)
                  default_config
                  (λ w. some (pos 1))
                  (error_data, packet)
                  low_priority
                  80
                  "u"
                  "1,2"
                  []))
        × Answered values schemas
            (statements true)
            default_config
            (λ w. some (pos 1))
            (error_data, packet)
            low_priority
            3
            40
            "u"
            "5"
            data_final
            sp_fres_ack
            (record { id = "u"; task_status = data_queued; worker = 0 })
            (ready 10)
            50
            r.2)
      (start_validator
        (statements true)
        default_config
        values
        schemas
        (λ w. some (pos 1))
        (error_data, packet)
        low_priority
        []
        receiving)
unfolding get_worker_from_uid find_uid find_worker
start_validator-Answers_example =
    start_validator-Answers values schemas (statements true) default_config (λ w. some (pos 1))
      (error_data, packet) low_priority (result_packet 80) 16 80 3 40 "5" "u" "1,2" data_final
      sp_fres_ack (record { id = "u"; task_status = data_queued; worker = 0 }) (ready 10) []
      receiving low_priority 0 [] refl refl is_result final (inr refl) refl
      (record { before = []; after = []; listed = refl; others = tt; held = refl; same_id = refl })
      (omega arith) refl refl refl refl (omega arith)

returns :
    ReturnsTimes
      (statements true)
      default_config
      values
      schemas
      (λ w. some (pos 1))
      (error_data, packet)
      low_priority
      1
      []
      receiving
unfolding get_worker_from_uid find_uid find_worker
returns =
    Returns-weaken _ (λ r. Unit)
      (start_validator (statements true) default_config values schemas (λ w. some (pos 1))
        (error_data, packet) low_priority [] receiving)
      (start_validator-Answers values schemas (statements true) default_config (λ w. some (pos 1))
        (error_data, packet) low_priority (result_packet 80) 16 80 3 40 "5" "u" "1,2" data_final
        sp_fres_ack (record { id = "u"; task_status = data_queued; worker = 0 }) (ready 10) []
        receiving low_priority 0 [] refl refl is_result final (inr refl) refl
        (record {
          before = [];
          after = [];
          listed = refl;
          others = tt;
          held = refl;
          same_id = refl;
        })
        (omega arith) refl refl refl refl (omega arith))
      (λ r h. tt)

start_validator-EndsIn_example :
    (db' : List String) × (s' : Server Value ℕ) × (s'.receiver_sink.sink_item_list ≡ [])
    × EndsIn
        (λ (t : Unit {0}).
          validator_process
            (statements true)
            default_config
            values
            schemas
            (λ w. some (pos 1))
            (error_data, packet)
            low_priority)
        tt
        job_done
        (done (db', s'))
        1
        (done ([], receiving))
start_validator-EndsIn_example =
    start_validator-EndsIn (statements true) default_config values schemas (λ w. some (pos 1))
      (error_data, packet) low_priority (new_item (result_packet 80) low_priority 0 ∷ []) []
      receiving refl refl ((result_packet 80, refl), tt) returns

abbrev processes : Unit {0} → Process (Outcome (List String × Server Value ℕ))
processes t =
    validator_process (statements true) default_config values schemas (λ w. some (pos 1))
      (error_data, packet) low_priority

abbrev AtMostOne : Outcome (List String × Server Value ℕ) → Type 0
AtMostOne =
    Drains (statements true) default_config values schemas (λ w. some (pos 1)) (error_data, packet)
      low_priority 1

abbrev validator : JobStatus → QueueJob (Unit {0})
validator status = record {
  task = tt;
  cpu_slice_ms = 2000000;
  job_status = status;
  job_error_handle = none;
}

-- Two validators that are pending and one that has ended.
abbrev busy : ThreadQueue (Unit {0})
busy = record {
  thread_id = 1;
  slots =
      record { job = some (validator job_pending); slot_done = false }
      ∷ empty_slot
      ∷ record { job = some (validator job_done); slot_done = false }
      ∷ record { job = some (validator job_pending); slot_done = false }
      ∷ [];
  thread_should_stop = false;
  total_jobs_in_queue = 3;
}

busy-IsValid : IsValid busy
unfolding empty_slots
busy-IsValid = record {
  four = refl;
  counted = omega arith;
  filled = (
    inr (validator job_pending, refl, omega arith),
    (
      inl refl,
      (
        inr (validator job_done, refl, omega arith),
        (inr (validator job_pending, refl, omega arith), tt),
      ),
    ),
  );
}

always_ends : AlwaysEnds processes 1 AtMostOne tt
always_ends =
    validator-AlwaysEnds (statements true) default_config values schemas (λ w. some (pos 1))
      (error_data, packet) low_priority 1

end_keeps : EndKeeps processes 1 AtMostOne tt
end_keeps =
    validator-EndKeeps (statements true) default_config values schemas (λ w. some (pos 1))
      (error_data, packet) low_priority 1

busy-Finishes : All (Finishes processes 1 AtMostOne) busy.slots
busy-Finishes = (
  inr (validator job_pending, refl, omega arith, (end_keeps, inr (refl, always_ends))),
  (
    inl refl,
    (
      inr (validator job_done, refl, omega arith, (end_keeps, inl refl)),
      (inr (validator job_pending, refl, omega arith, (end_keeps, inr (refl, always_ends))), tt),
    ),
  ),
)

thread_task-Finishes_example :
    (q' : ThreadQueue (Unit {0})) × (head' : ℕ) × (w' : Outcome (List String × Server Value ℕ))
    × (thread_task processes 8 2 (λ k. true) busy 3 (done ([], receiving))
        ≡ done (some (q', head', w')))
    × IsValid q'
    × (empty_slots q'.slots ≡ 4)
    × (q'.total_jobs_in_queue ≡ 0)
thread_task-Finishes_example =
    thread_task-Finishes processes 1 AtMostOne (λ k. true) busy 3 (done ([], receiving))
      busy-IsValid busy-Finishes
      ([], receiving, refl, inr (refl, ((result_packet 80, refl), tt), omega arith, returns))
      (omega arith) refl
