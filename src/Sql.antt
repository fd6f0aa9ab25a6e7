-- ===== src/Sql.antt =====
-- services/sql_access.cpp: the calls on the database. The connector library is a parameter: `run`
-- stands for `prepareStatement` and `executeQuery` on one text, and none is an `SQLException`.
pub mod Unconnected
pub mod Concrete
use Prim.Native.String.{◌++◌ as join}
use server_unit.Base.{
  ℕ, Bool, true, false, Option, none, some, List, [], ◌∷◌, ◌++◌, String, str_eq, ◌&&◌,
  if◌then◌else◌, Outcome, done, fault, ◌>>=◌,
}
use server_unit.Base.Int.{ℤ, pos, negsuc}
use server_unit.Task.{Flag, init_flag}

pub record SqlLib : Type 1 where
  pub Db : Type 0
  pub Row : Type 0
  -- `driver->connect` and `conn->setSchema` return.
  pub connects : String → String → String → Bool
  pub has_schema : String → Bool
  pub run : String → Db → Option (List Row) × Db
  -- `getString` and `getInt` of a column by name, and of the first.
  pub string_of : Row → String → Option String
  pub first_string : Row → Option String
  pub int_of : Row → String → Option ℤ
  pub first_int : Row → Option ℤ

-- `connected` says whether `conn` was set; `inited` is read by nobody.
pub record SqlAccess : Type 0 where
  pub url : String
  pub username : String
  pub password : String
  pub database : String
  pub data_table : String
  pub connected : Bool
  pub inited : Flag

abbrev pub new_sql_access : String → String → String → String → String → SqlAccess
new_sql_access url username password database data_table = record {
  url = url;
  username = username;
  password = password;
  database = database;
  data_table = data_table;
  connected = false;
  inited = init_flag false;
}

unfoldable pub concat : List String → String
concat [] = ""
concat (t ∷ ts) = join t (concat ts)

module _ (L : SqlLib) where
  open L use {Db, Row, connects, has_schema, run, string_of, first_string, int_of, first_int}

  unfoldable pub initialize : SqlAccess → SqlAccess
  initialize a =
      let c = connects a.url a.username a.password in
      record a { connected = c; inited = init_flag (c && has_schema a.database) }

  abbrev pub read_string : String → Row → Option String
  read_string column row = if str_eq column "" then first_string row else string_of row column

  abbrev pub read_int : String → Row → Option ℤ
  read_int column row = if str_eq column "" then first_int row else int_of row column

  -- A call through `conn`, which is not initialised when the connection failed.
  unfoldable pub execute_query : SqlAccess → String → Db → Outcome (Option (List Row) × Db)
  execute_query a query db = if a.connected then done (run query db) else fault

  -- The loop of `sqlQueryDb`, from the text so far on.
  unfoldable pub append_rows : String → List Row → String → Option String
  append_rows column [] result = some result
  append_rows column (row ∷ rows) result = elim (read_string column row) [
    | none ↦ none
    | some text ↦ append_rows column rows (join result text)
  ]

  unfoldable pub sql_query_db : SqlAccess → String → String → Db → Outcome (String × Db)
  unfolding execute_query append_rows
  sql_query_db a query column db = do
    r ← execute_query a query db
    done (elim r.0 [
      | none ↦ ("", r.1)
      | some rows ↦ elim (append_rows column rows "") [ none ↦ ("", r.1) | some text ↦ (text, r.1) ]
    ])

  -- The rows up to the first that throws.
  unfoldable pub list_rows : (Row → Option String) → List Row → List String
  list_rows reader [] = []
  list_rows reader (row ∷ rows) = elim (reader row) [
    | none ↦ []
    | some text ↦ text ∷ list_rows reader rows
  ]

  unfoldable pub sql_query_db_list : SqlAccess → String → String → Db → Outcome (List String × Db)
  unfolding execute_query list_rows
  sql_query_db_list a query column db = do
    r ← execute_query a query db
    done (elim r.0 [ none ↦ ([], r.1) | some rows ↦ (list_rows (read_string column) rows, r.1) ])

  -- The last row counts; `result` starts as the memory was.
  unfoldable pub last_int : String → List Row → ℤ → ℤ
  last_int column [] result = result
  last_int column (row ∷ rows) result = elim (read_int column row) [
    | none ↦ negsuc 0
    | some n ↦ last_int column rows n
  ]

  unfoldable pub sql_query_db_get_int : ℤ → SqlAccess → String → String → Db → Outcome (ℤ × Db)
  unfolding execute_query last_int
  sql_query_db_get_int junk a query column db = do
    r ← execute_query a query db
    done (elim r.0 [ none ↦ (negsuc 0, r.1) | some rows ↦ (last_int column rows junk, r.1) ])

  -- A statement whose rows are not read: 0, or -1 for an exception.
  unfoldable pub sql_update : SqlAccess → String → Db → Outcome (ℤ × Db)
  unfolding execute_query
  sql_update a query db = do
    r ← execute_query a query db
    done (elim r.0 [ none ↦ (negsuc 0, r.1) | some rows ↦ (pos 0, r.1) ])

  unfoldable pub sql_write_blob :
      SqlAccess → String → String → String → String → Db → Outcome (ℤ × Db)
  unfolding sql_update concat
  sql_write_blob a file_loc column row_name row_value db =
      sql_update a
        (concat (
          "UPDATE " ∷ a.data_table ∷ " SET " ∷ column ∷ " = LOAD_FILE('" ∷ file_loc ∷ "') WHERE "
          ∷ row_name ∷ "='" ∷ row_value ∷ "';" ∷ []))
        db

  unfoldable pub sql_write_string :
      SqlAccess → String → String → String → String → Db → Outcome (ℤ × Db)
  unfolding sql_update concat
  sql_write_string a result column row_name row_value db =
      sql_update a
        (concat (
          "UPDATE " ∷ a.data_table ∷ " SET " ∷ column ∷ "='" ∷ result ∷ "' WHERE " ∷ row_name ∷ "='"
          ∷ row_value ∷ "';" ∷ []))
        db

  unfoldable pub sql_read_list : SqlAccess → String → String → Db → Outcome (List String × Db)
  unfolding execute_query list_rows concat
  sql_read_list a table column db = do
    r ← execute_query a (concat ("SELECT " ∷ column ∷ " FROM " ∷ table ∷ ";" ∷ [])) db
    done (elim r.0 [
      | none ↦ ([], r.1)
      | some rows ↦ (list_rows (λ row. string_of row column) rows, r.1)
    ])
