-- ===== src/Monitor.antt =====
-- services/monitor_user_table.cpp and services/monitor_instance_table.cpp: one turn of the loop of
-- each monitor, between two sleeps. `latest` is the time stamp that the loop keeps.
pub mod Threads
pub mod Stops
mod Examples
use server_unit.Base.{
  not, ◌||◌, Option, [], ◌∷◌, String, str_eq, if◌then◌else◌, Outcome, done, ◌>>=◌,
}
use server_unit.Base.Int.{ℤ}
use server_unit.Config.{
  Config, userdat_table_name, userdat_dat_col_id, template_table_name, template_name_col_id,
}
use server_unit.Sql.{SqlLib, SqlAccess, concat, sql_query_db, sql_query_db_list, sql_read_list}
use server_unit.Sink.{is_sink_full}
use server_unit.Templates.{Template}
use server_unit.Extractor.{execute_user_table_extractor, execute_instance_extractor}
use server_unit.State.{Server}

abbrev pub first_time_stamp : String
first_time_stamp = "2022-05-01 00:00:00"

unfoldable pub max_time_stamp : String → String
unfolding concat
max_time_stamp table = concat ("SELECT MAX(timestamp) as timestamp FROM " ∷ table ∷ ";" ∷ [])

unfoldable pub names_since : String → String
unfolding concat
names_since latest = concat (
    "SELECT " ∷ userdat_dat_col_id ∷ " FROM " ∷ userdat_table_name ∷ " WHERE timestamp > '" ∷ latest
    ∷ "' AND timestamp <= CURRENT_TIMESTAMP;" ∷ [])

module _ (L : SqlLib) (cfg : Config) (files : String → Option String) (a : SqlAccess) (junk : ℤ)
    {J D : Type 0} where
  open L use {Db}

  -- The turn gives the time stamp to keep.
  unfoldable pub monitor_user_table : String → Db → Server J D → Outcome (String × Db × Server J D)
  unfolding max_time_stamp names_since
  monitor_user_table latest db s =
      let fresh = λ (current : String) (db' : Db). (do
        names ← sql_query_db_list L a (names_since latest) "" db'
        r ← execute_user_table_extractor L cfg files a junk names.0 names.1 s
        done (current, r.0, r.1)) in
      let poll = (do
        r ← sql_query_db L a (max_time_stamp userdat_table_name) "timestamp" db
        if str_eq r.0 latest then done (latest, r.1, s) else fresh r.0 r.1) in
      if not (is_sink_full s.sender_sink) || not (is_sink_full s.receiver_sink)
      then poll
      else done (latest, db, s)

  unfoldable pub monitor_instance_table :
      (Template → J) → String → Db → Server J D → Outcome (String × Db × Server J D)
  unfolding max_time_stamp
  monitor_instance_table to_json latest db s =
      let fresh = λ (current : String) (db' : Db). (do
        names ← sql_read_list L a template_table_name template_name_col_id db'
        r ← execute_instance_extractor L cfg files a junk to_json names.0 names.1 s
        done (current, r.1, r.2)) in
      do
        r ← sql_query_db L a (max_time_stamp template_table_name) "timestamp" db
        if str_eq r.0 latest then done (latest, r.1, s) else fresh r.0 r.1
