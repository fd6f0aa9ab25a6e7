-- ===== src/Sql/Unconnected.antt =====
-- What the calls do when the connection failed.
use server_unit.Base.{◌≡◌, refl, false, String, fault}
use server_unit.Base.Int.{ℤ}
use server_unit.Sql.{
  SqlLib, SqlAccess, initialize, execute_query, sql_query_db, sql_query_db_list,
  sql_query_db_get_int, sql_write_blob, sql_write_string, sql_read_list,
}

module _ (L : SqlLib) (a : SqlAccess) where
  open L use {Db, connects}

  execute_query-fault :
      (query : String) (db : Db)
      → connects a.url a.username a.password ≡ false
      → execute_query L (initialize L a) query db ≡ fault
  unfolding execute_query initialize
  execute_query-fault query db h = rw h refl

  -- If the server of the database refuses the connection, `initialize` returns all the same, and
  -- every call after it uses a connection that was never set.
  pub initialize-fault :
      (junk : ℤ) (query column table row_name row_value : String) (db : Db)
      → connects a.url a.username a.password ≡ false
      → (sql_query_db L (initialize L a) query column db ≡ fault)
        × (sql_query_db_list L (initialize L a) query column db ≡ fault)
        × (sql_query_db_get_int L junk (initialize L a) query column db ≡ fault)
        × (sql_write_blob L (initialize L a) query column row_name row_value db ≡ fault)
        × (sql_write_string L (initialize L a) query column row_name row_value db ≡ fault)
        × (sql_read_list L (initialize L a) table column db ≡ fault)
  unfolding initialize sql_query_db sql_query_db_list sql_query_db_get_int sql_write_blob
      sql_write_string sql_read_list execute_query
  initialize-fault junk query column table row_name row_value db h =
      (rw h refl, rw h refl, rw h refl, rw h refl, rw h refl, rw h refl)
