-- ===== src/DataPacket.antt =====
-- packet_processor/process_data_packet.cpp: what the server does with data that a worker sends. A
-- call is one step.
pub mod Results
mod Examples
use Prim.Native.String.{◌++◌ as join}
use server_unit.Base.{
  Bool, true, false, [], ◌∷◌, ◌++◌, String, str_eq, ◌==◌, if◌then◌else◌, Outcome, done, get_value,
  ◌>>=◌,
}
use server_unit.Base.Int.{ℤ, pos, negsuc}
use server_unit.Json.{JsonLib}
use server_unit.Config.{
  Config, database_url, userdat_table_name, userdat_res_col_id, userdat_aliasname_col_id,
  inter_result_data_dir, final_result_data_dir,
}
use server_unit.Sql.{SqlLib, SqlAccess, new_sql_access, initialize, sql_write_string}
use server_unit.Outgoing.{find_match_in_list}
use server_unit.Status.{int_has_bit}
use server_unit.State.{Server}

pub data DataType : Type 0 where
  intermediate_result final_result error_data : DataType

-- `ProcessDataPacket`; `content` is its `data`.
pub record ProcessDataPacket : Type 0 where
  pub data_type : DataType
  pub table_id : String
  pub content : String
  pub worker_uid : String
  pub packet_staus_code : ℤ

module _ (J : JsonLib) where
  open J use {Json, at, get_string, get_int}

  -- The constructor; the type is set later, until then it is what the memory held.
  unfoldable pub new_data_packet : DataType → Json → Outcome ProcessDataPacket
  new_data_packet junk packet = do
    id ← get_value (get_string (at (at packet "body") "id"))
    content ← get_value (get_string (at (at packet "body") "data"))
    code ← get_value (get_int (at packet "head"))
    uid ← get_value (get_string (at packet "id"))
    done (record {
      data_type = junk;
      table_id = id;
      content = content;
      worker_uid = uid;
      packet_staus_code = code;
    })

-- P_INTR_RES is bit 3 and P_FINAL_RES bit 4.
unfoldable pub detect_data_type : ProcessDataPacket → ProcessDataPacket
detect_data_type p =
    if int_has_bit 3 p.packet_staus_code
    then record p { data_type = intermediate_result }
    else if int_has_bit 4 p.packet_staus_code
    then record p { data_type = final_result }
    else record p { data_type = error_data }

abbrev pub is_intermediate : DataType → Bool
is_intermediate intermediate_result = true
is_intermediate final_result = false
is_intermediate error_data = false

unfoldable pub result_path : Config → ProcessDataPacket → String
result_path cfg p =
    let dir =
      if is_intermediate p.data_type then inter_result_data_dir else final_result_data_dir in
    join cfg.home_dir (join dir (join p.table_id ".csv"))

-- The database of `SqlAccess` for the table of the users.
unfoldable pub userdat_access : SqlLib → Config → SqlAccess
userdat_access L cfg = initialize L (
    new_sql_access database_url cfg.database_username cfg.database_password cfg.database_name
      userdat_table_name)

module _ (cfg : Config) {J D : Type 0} where
  unfoldable pub create_csv_from_data : ProcessDataPacket → Server J D → ℤ × Server J D
  unfolding result_path
  create_csv_from_data p s =
      if str_eq p.content ""
      then (negsuc 0, s)
      else (pos 0, record s { files = s.files ++ (result_path cfg p, p.content) ∷ [] })

module _ (L : SqlLib) (cfg : Config) where
  open L use {Db}

  -- What the write returns is not used.
  unfoldable pub push_data_to_db : ProcessDataPacket → Db → Outcome Db
  unfolding userdat_access
  push_data_to_db p db = do
    r ←
        sql_write_string L (userdat_access L cfg) p.content userdat_res_col_id
          userdat_aliasname_col_id p.table_id db
    done r.1

module _ (L : SqlLib) (cfg : Config) {J D : Type 0} where
  open L use {Db}

  unfoldable pub execute_data_packet :
      ProcessDataPacket → Db → Server J D → Outcome (Db × Server J D)
  unfolding detect_data_type create_csv_from_data push_data_to_db
  execute_data_packet p db s = do
    found ← find_match_in_list p.table_id s.outgoing
    let p' = detect_data_type p
    let r = create_csv_from_data cfg p' s
    let stored = (do db' ← push_data_to_db L cfg p' db; done (db', r.1))
    let finished : Outcome (Db × Server J D) =
        if is_intermediate p'.data_type then done (db, r.1) else stored
    let created : Outcome (Db × Server J D) = elim r.0 [
      | negsuc k ↦ done (db, r.1)
      | pos k ↦ if k == 0 then finished else done (db, r.1)
    ]
    if found then created else done (db, s)
