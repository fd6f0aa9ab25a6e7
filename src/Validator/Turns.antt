-- ===== src/Validator/Turns.antt =====
-- The validators among the jobs of a worker thread.
use server_unit.Base.{
  ℕ, ◌≡◌, ◌≤◌, ◌⊎◌, inl, inr, refl, subst, sym, [], arith, length, All, String, Option, Outcome,
  done,
}
use server_unit.Base.Int.{ℤ}
use server_unit.Task.{JobStatus, job_done, TaskPriority, Process}
use server_unit.Json.{JsonLib}
use server_unit.Json.Schema.{SchemaLib}
use server_unit.Config.{Config}
use server_unit.Sql.{SqlLib}
use server_unit.DataPacket.{DataType}
use server_unit.Status.{ProcessStatusPacket}
use server_unit.State.{Server}
use server_unit.Scheduler.Progress.{EndsIn, last}
use server_unit.Scheduler.Drain.{AlwaysEnds, EndKeeps}
use server_unit.Validator.Drain.{
  HoldsPacket, World, ReturnsTimes, validator_process, start_proc-done, end_proc-same,
  start_validator_empty, start_validator-EndsIn,
}

module _ (L : SqlLib) (cfg : Config) (J : JsonLib) {D : Type 0} (S : SchemaLib J D)
    (stoi : String → Option ℤ) (junk : DataType × ProcessStatusPacket D)
    (junk_priority : TaskPriority) (f : ℕ) where
  open L use {Db}
  open J use {Json}

  -- The receiver sink is empty.
  abbrev Emptied : Db → Server Json D → Type 0
  Emptied db s = s.receiver_sink.sink_item_list ≡ []

  -- It is unlocked and holds at most `f` items, all with packets, and the validator can process as
  -- many without a fault.
  abbrev Processable : Db → Server Json D → Type 0
  Processable db s =
      (s.receiver_sink.sink_lock ≡ 1)
      × All (HoldsPacket L cfg J S stoi junk junk_priority) s.receiver_sink.sink_item_list
      × (length s.receiver_sink.sink_item_list ≤ f)
      × ReturnsTimes L cfg J S stoi junk junk_priority (length s.receiver_sink.sink_item_list) db s

  abbrev pub Drains : Outcome (World L cfg J S stoi junk junk_priority) → Type 0
  Drains w =
      (db : Db) × (s : Server Json D) × (w ≡ done (db, s)) × (Emptied db s ⊎ Processable db s)

  abbrev validators : Unit {0} → Process (Outcome (World L cfg J S stoi junk junk_priority))
  validators t = validator_process L cfg J S stoi junk junk_priority

  validator_ends :
      (db : Db) (s : Server Json D)
      → Emptied db s ⊎ Processable db s
      → (n : ℕ) × (status : JobStatus) × (w : Outcome (World L cfg J S stoi junk junk_priority))
        × EndsIn validators tt status w n (done (db, s))
        × (n ≤ f)
        × Drains w
  validator_ends db s (inl e) = (
    0,
    job_done,
    done (db, s),
    last
        (start_proc-done L cfg J S stoi junk junk_priority db db s s job_done
          (start_validator_empty L cfg J S stoi junk junk_priority db s e))
        refl,
    omega arith,
    (db, s, refl, inl e),
  )
  validator_ends db s (inr (lock, hold, le, returns)) =
      let (db', s', e, ends) =
        start_validator-EndsIn L cfg J S stoi junk junk_priority s.receiver_sink.sink_item_list db s
          refl lock hold returns in
      (
        length s.receiver_sink.sink_item_list,
        job_done,
        done (db', s'),
        ends,
        le,
        (db', s', refl, inl e),
      )

  pub validator-AlwaysEnds : AlwaysEnds validators f Drains tt
  validator-AlwaysEnds w (db, s, e, h) =
      let (n, status, w', ends, le, p) = validator_ends db s h in
      (n, status, w', subst (EndsIn validators tt status w' n) (sym e) ends, le, p)

  pub validator-EndKeeps : EndKeeps validators f Drains tt
  validator-EndKeeps status w p =
      subst Drains (sym (end_proc-same L cfg J S stoi junk junk_priority status w)) p
