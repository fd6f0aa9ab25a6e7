-- ===== src/DataPacket/Results.antt =====
-- What is written for the data of a worker.
use Prim.Native.String.{◌++◌ as join}
use server_unit.Base.{
  ◌≡◌, Bool, true, not, ◌&&◌, [], ◌∷◌, ◌++◌, String, str_eq, if◌then◌else◌, arith, done,
}
use server_unit.Config.{Config, database_url}
use server_unit.Sql.{SqlLib, initialize, sql_write_string, sql_update, execute_query, concat}
use server_unit.Outgoing.{find_match_in_list}
use server_unit.Status.{int_has_bit}
use server_unit.State.{Server}
use server_unit.DataPacket.{
  ProcessDataPacket, detect_data_type, push_data_to_db, execute_data_packet,
}

-- The file, and the statement on the database.
pub csv_of : Config → Bool → String → String
csv_of cfg inter id =
    join cfg.home_dir (join (if inter then "/inter_result/" else "/final_result/") (join id ".csv"))

pub update_of : String → String → String
update_of content id = join "UPDATE " (
    join "Home_filelog" (
      join " SET " (
        join "final_result" (
          join "='" (
            join content
              (join "' WHERE " (join "aliasname" (join "='" (join id (join "';" ""))))))))))

module _ (L : SqlLib) (cfg : Config) where
  open L use {Db, run, connects}

  push_data_to_db-eq :
      (p : ProcessDataPacket) (db : Db)
      → connects database_url cfg.database_username cfg.database_password ≡ true
      → push_data_to_db L cfg p db ≡ done (run (update_of p.content p.table_id) db).1
  unfolding push_data_to_db initialize sql_write_string sql_update execute_query concat update_of
  push_data_to_db-eq p db c = ground (arith)

module _ (L : SqlLib) (cfg : Config) {J D : Type 0} where
  open L use {Db, run, connects}

  -- While the database takes the connection: of a packet with data that is not empty, for an
  -- identifier that is tracked, the data goes into a file, and unless the bit of an intermediate
  -- result is set, also into the column of the final result: the data itself, not the file's name.
  -- So a packet that reports an error and has data replaces the final result. Any other packet
  -- changes nothing.
  pub execute_data_packet-stores :
      (p : ProcessDataPacket) (db : Db) (s : Server J D) (found : Bool)
      → find_match_in_list p.table_id s.outgoing ≡ done found
      → connects database_url cfg.database_username cfg.database_password ≡ true
      → execute_data_packet L cfg p db s
        ≡ done (
            if found && not (str_eq p.content "")
            then (
              (if int_has_bit 3 p.packet_staus_code
                  then db
                  else (run (update_of p.content p.table_id) db).1),
              record s {
                files =
                    s.files
                    ++ (csv_of cfg (int_has_bit 3 p.packet_staus_code) p.table_id, p.content) ∷ [];
              },
            )
            else (db, s))
  unfolding execute_data_packet csv_of
  execute_data_packet-stores p db s found f c =
      ground (arith, push_data_to_db-eq L cfg (detect_data_type p) db c)
