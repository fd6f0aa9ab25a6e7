-- ===== src/State/Statuses.antt =====
-- `updateStatusInDb` of packet_processor/outgoing_data_registry.cpp: the calls that the server keeps
-- in a list, made on a database.
use server_unit.Base.{List, [], ◌∷◌, String, str_eq, if◌then◌else◌, Outcome, done, ◌>>=◌}
use server_unit.Task.{UserTaskStatus}
use server_unit.Config.{Config, userdat_table_name, userdat_status_col_id, userdat_aliasname_col_id}
use server_unit.Sql.{SqlLib, concat, sql_write_string}
use server_unit.Monitor.Threads.{own_access}
use server_unit.State.{Server, update_task_status}

module _ (L : SqlLib) (cfg : Config) where
  open L use {Db, run, connects}

  -- Each call makes an access of its own.
  unfoldable pub update_status_in_db : String → String → Db → Outcome Db
  unfolding own_access
  update_status_in_db result table db = do
    r ←
        sql_write_string L (own_access L cfg) result userdat_status_col_id userdat_aliasname_col_id
          table db
    done r.1

  -- The calls of the list, one after the other.
  unfoldable pub make_calls : List (String × String) → Db → Outcome Db
  unfolding update_status_in_db
  make_calls [] db = done db
  make_calls (c ∷ cs) db = do db' ← update_status_in_db c.0 c.1 db; make_calls cs db'

-- The statement of `updateStatusInDb`.
unfoldable pub status_statement : String → String → String
unfolding concat
status_statement result table = concat (
    "UPDATE " ∷ userdat_table_name ∷ " SET " ∷ userdat_status_col_id ∷ "='" ∷ result ∷ "' WHERE "
    ∷ userdat_aliasname_col_id ∷ "='" ∷ table ∷ "';" ∷ [])

-- `updateTaskStatus` for the identifiers and statuses of the list.
unfoldable pub update_statuses :
    {J D : Type 0} → List (String × UserTaskStatus) → Server J D → Outcome (Server J D)
update_statuses [] s = done s
update_statuses (c ∷ cs) s = do s' ← update_task_status c.0 c.1 s; update_statuses cs s'

-- The statuses that the list has for one identifier.
abbrev pub statuses_of : String → List (String × UserTaskStatus) → List UserTaskStatus
statuses_of id [] = []
statuses_of id (c ∷ cs) = if str_eq c.0 id then c.1 ∷ statuses_of id cs else statuses_of id cs
