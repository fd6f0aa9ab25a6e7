-- ===== src/Monitor/Stops.antt =====
-- When the threads of services/ end, and what they do without a database.
use server_unit.Base.{
  ℕ, zero, suc, ◌+◌, ◌<◌, ◌≡◌, refl, Bool, true, false, Option, some, String, arith, Outcome, done,
  fault,
}
use server_unit.Base.Int.{ℤ}
use server_unit.Config.{Config, database_url, userdat_table_name}
use server_unit.Sql.{SqlLib, new_sql_access, sql_query_db}
use server_unit.Sql.Unconnected.{initialize-fault}
use server_unit.Sink.{is_sink_full}
use server_unit.Templates.{Template}
use server_unit.State.{Server}
use server_unit.Monitor.{monitor_user_table, monitor_instance_table}
use server_unit.Monitor.Threads.{
  repeat_turns, own_access, monitor_user_table_thread, monitor_instance_table_thread,
}

module _ {W : Type 0} (turn : ℕ → W → Outcome W) where
  -- `n` turns from turn `k` on return, and lead from one state to the other.
  pub data Runs (w' : W) : ℕ → ℕ → W → Type 0 where
    ended : {k : ℕ} → Runs w' zero k w'
    turned : {n k : ℕ} {w w₁ : W} → turn k w ≡ done w₁ → Runs w' n (k + 1) w₁ → Runs w' (suc n) k w

  repeat_turns-from :
      (stopped : ℕ → Bool) (fuel n k m : ℕ) (w w' : W)
      → Runs w' n k w
      → k + n ≡ m
      → ((j : ℕ) → j < m → stopped j ≡ false)
      → stopped m ≡ true
      → n < fuel
      → repeat_turns fuel stopped turn k w ≡ done (some w')
  unfolding repeat_turns
  repeat_turns-from stopped zero n k m w w' r e before set l = absurd (omega arith)
  repeat_turns-from stopped (suc fuel) zero k m w w' ended e before set l =
      let is : k ≡ m = omega arith in rw is (rw set refl)
  repeat_turns-from stopped (suc fuel) (suc n) k m w w' (turned {w₁ = w₁} t r) e before set l =
      rw (before k (omega arith)) (
        rw t (
          repeat_turns-from stopped fuel n (k + 1) m w₁ w' r (omega arith) before set
            (omega arith)))

  -- If the stop flag is set at test `n` and at none before, and the `n` turns before it return, the
  -- thread ends after these turns.
  pub repeat_turns-stops :
      (stopped : ℕ → Bool) (fuel n : ℕ) (w w' : W)
      → Runs w' n 0 w
      → ((j : ℕ) → j < n → stopped j ≡ false)
      → stopped n ≡ true
      → n < fuel
      → repeat_turns fuel stopped turn 0 w ≡ done (some w')
  repeat_turns-stops stopped fuel n w w' r before set l =
      repeat_turns-from stopped fuel n 0 n w w' r (omega arith) before set l

module _ (L : SqlLib) (cfg : Config) (files : String → Option String) (junk : ℤ) {J D : Type 0}
    (stopped : ℕ → Bool) (others : ℕ → L.Db × Server J D → L.Db × Server J D) where
  open L use {Db, connects}

  query_fault :
      (query column : String) (db : Db)
      → connects database_url cfg.database_username cfg.database_password ≡ false
      → sql_query_db L (own_access L cfg) query column db ≡ fault
  unfolding own_access
  query_fault query column db refused =
      (initialize-fault L
        (new_sql_access database_url cfg.database_username cfg.database_password cfg.database_name
          userdat_table_name)
        junk query column "" "" "" db refused).0

  -- If the server of the database refuses the connection with the configured name and password, the
  -- stop flag is not set at the first test and the sender sink is not full then, both monitors use
  -- a connection that was never set in their first turn.
  pub monitor_threads-fault :
      (to_json : Template → J) (fuel : ℕ) (db : Db) (s : Server J D)
      → connects database_url cfg.database_username cfg.database_password ≡ false
      → stopped 0 ≡ false
      → is_sink_full (others 0 (db, s)).1.sender_sink ≡ false
      → (monitor_instance_table_thread L cfg files junk stopped others to_json (suc fuel) db s
          ≡ fault)
        × (monitor_user_table_thread L cfg files junk stopped others (suc fuel) db s ≡ fault)
  unfolding monitor_instance_table_thread monitor_user_table_thread monitor_user_table
      monitor_instance_table
  monitor_threads-fault to_json fuel db s refused runs room =
      let shared = others 0 (db, s) in
      (
        rw runs (rw (query_fault _ _ shared.0 refused) refl),
        rw runs (rw room (rw (query_fault _ _ shared.0 refused) refl)),
      )
