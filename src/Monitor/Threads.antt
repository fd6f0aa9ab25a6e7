-- ===== src/Monitor/Threads.antt =====
-- The threads of services/: the loops around the turns of the two monitors, and that of
-- services/timeout_timer.cpp around `execute`. `stopped k` is `monitorStop` at test `k`, and
-- `others k` what the other threads do between two turns, in which the thread sleeps.
use server_unit.Base.{
  ℕ, zero, suc, ◌+◌, Bool, false, Option, none, some, String, if◌then◌else◌, Outcome, done, ◌>>=◌,
}
use server_unit.Base.Int.{ℤ}
use server_unit.Task.{Flag, init_flag}
use server_unit.Config.{Config, database_url, userdat_table_name}
use server_unit.Sql.{SqlLib, SqlAccess, new_sql_access, initialize}
use server_unit.Templates.{Template}
use server_unit.State.{Server}
use server_unit.Expiry.{execute}
use server_unit.Monitor.{first_time_stamp, monitor_user_table, monitor_instance_table}

-- `while(!monitorStop.isFlagSet())`; none says that the fuel ran out.
unfoldable pub repeat_turns :
    {W : Type 0} → ℕ → (ℕ → Bool) → (ℕ → W → Outcome W) → ℕ → W → Outcome (Option W)
repeat_turns zero stopped turn k w = done none
repeat_turns {W} (suc fuel) stopped turn k w =
    let rest : Outcome (Option W) = (do w' ← turn k w; repeat_turns fuel stopped turn (k + 1) w') in
    if stopped k then done (some w) else rest

-- The access to the database that each thread makes for itself.
unfoldable pub own_access : SqlLib → Config → SqlAccess
own_access L cfg = initialize L (
    new_sql_access database_url cfg.database_username cfg.database_password cfg.database_name
      userdat_table_name)

-- `monitorStop` after `startMonitorUserTableService` or `startMonitorInstanceTable`.
abbrev pub start_service : Flag → Flag
start_service stop = init_flag false

module _ {J D : Type 0} where
  -- `start_timer`: the thread sleeps before `execute`.
  unfoldable pub start_timer :
      ℕ → (ℕ → Bool) → (ℕ → Server J D → Server J D) → Server J D → Outcome (Option (Server J D))
  unfolding repeat_turns
  start_timer fuel stopped others s = repeat_turns fuel stopped (λ k t. execute (others k t)) 0 s

module _ (L : SqlLib) (cfg : Config) (files : String → Option String) (junk : ℤ) {J D : Type 0}
    (stopped : ℕ → Bool) (others : ℕ → L.Db × Server J D → L.Db × Server J D) where
  open L use {Db}

  -- What a loop of a monitor keeps: the last time stamp, and what it shares with other threads.
  abbrev pub Watch : Type 0
  Watch = String × Db × Server J D

  unfoldable pub user_table_turn : ℕ → Watch → Outcome Watch
  unfolding own_access
  user_table_turn k w =
      let shared = others k (w.1, w.2) in
      monitor_user_table L cfg files (own_access L cfg) junk w.0 shared.0 shared.1

  unfoldable pub monitor_user_table_thread : ℕ → Db → Server J D → Outcome (Option Watch)
  unfolding repeat_turns user_table_turn
  monitor_user_table_thread fuel db s =
      repeat_turns fuel stopped user_table_turn 0 (first_time_stamp, db, s)

  -- The monitor of the templates starts with an empty time stamp.
  unfoldable pub instance_table_turn : (Template → J) → ℕ → Watch → Outcome Watch
  unfolding own_access
  instance_table_turn to_json k w =
      let shared = others k (w.1, w.2) in
      monitor_instance_table L cfg files (own_access L cfg) junk to_json w.0 shared.0 shared.1

  unfoldable pub monitor_instance_table_thread :
      (Template → J) → ℕ → Db → Server J D → Outcome (Option Watch)
  unfolding repeat_turns instance_table_turn
  monitor_instance_table_thread to_json fuel db s =
      repeat_turns fuel stopped (instance_table_turn to_json) 0 ("", db, s)
