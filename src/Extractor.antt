-- ===== src/Extractor.antt =====
-- data_extractor/data_extractor.cpp: what is read from the database and the files. The file system
-- is the argument `files`: the content of a file that can be opened. A call is one step.
pub mod UserData
mod Examples
use Prim.Native.Char.{code}
use Prim.Native.String.{String, ◌++◌ as join}
use server_unit.Base.{
  ℕ, ◌-◌, ◌+◌, ◌%◌, Bool, true, false, Option, none, some, List, [], ◌∷◌, ◌++◌, str_eq, ◌==◌,
  if◌then◌else◌, Outcome, done, ◌>>=◌,
}
use server_unit.Base.Int.{ℤ, pos, negsuc}
use server_unit.Task.{TaskPriority, high_priority, medium_priority, low_priority}
use server_unit.Config.{
  Config, template_file_data_dir, user_file_data_dir, userdat_table_name, userdat_dat_col_id,
  userdat_algo_col_id, userdat_dat_priority_col_id, userdat_aliasname_col_id, template_table_name,
  template_name_col_id, template_algo_col_id, template_file_col_id,
}
use server_unit.Sql.{SqlLib, SqlAccess, concat, sql_query_db, sql_query_db_get_int}
use server_unit.Templates
use server_unit.Templates.{Template}
use server_unit.Instances.{update_instance_list}
use server_unit.State.{UserDataTable, new_user_data_table, Server, push_sender, add_outgoing}

unfoldable pub get_task_priority : ℤ → TaskPriority
get_task_priority (pos n) =
    if n == 0 then high_priority else if n == 1 then medium_priority else low_priority
get_task_priority (negsuc n) = low_priority

-- The text without its carriage returns.
unfoldable pub remove_returns : String → String
remove_returns String.[] = String.[]
remove_returns (String.◌∷◌ c s) =
    let rest = remove_returns s in if code c == b'\r' then rest else String.◌∷◌ c rest

-- NULL is none.
unfoldable pub get_file_data : Config → (String → Option String) → String → Bool → Option String
unfolding remove_returns
get_file_data cfg files name is_instance =
    let dir = if is_instance then template_file_data_dir else user_file_data_dir in
    elim (files (join cfg.home_dir (join dir name))) [
      | none ↦ none
      | some text ↦ some (remove_returns text)
    ]

-- `SELECT column FROM table WHERE key='value';`.
unfoldable pub select_where : String → String → String → String → String
unfolding concat
select_where column table key value =
    concat ("SELECT " ∷ column ∷ " FROM " ∷ table ∷ " WHERE " ∷ key ∷ "='" ∷ value ∷ "';" ∷ [])

-- An `int` as a `uint8_t`.
unfoldable pub byte_of_int : ℤ → ℕ
byte_of_int (pos n) = n % 256
byte_of_int (negsuc n) = 255 - n % 256

-- `junk` is what an uninitialised `int` holds; `to_json` makes the packet of a template.
module _ (L : SqlLib) (cfg : Config) (files : String → Option String) (a : SqlAccess)
    (junk : ℤ) where
  open L use {Db}

  -- The body of the loop over the names of templates.
  unfoldable pub extract_instance : String → List Template → Db → Outcome (List Template × Db)
  unfolding select_where
  extract_instance name list db =
      let fetch = (do
        r ←
            sql_query_db L a
              (select_where template_file_col_id template_table_name template_name_col_id name)
              template_file_col_id db
        let algo_type =
            sql_query_db_get_int L junk a
              (select_where template_algo_col_id template_table_name template_name_col_id name)
              template_algo_col_id r.1
        elim (get_file_data cfg files r.0 true) [
          | none ↦ done (list, r.1)
          | some content ↦ do
            n ← algo_type
            let t : Template = record {
              template_name = name;
              algo_type = byte_of_int n.0;
              content = content;
            }
            done (list ++ t ∷ [], n.1)
        ]) in
      if str_eq name "" then done (list, db) else fetch

  unfoldable pub extract_instances : List String → List Template → Db → Outcome (List Template × Db)
  unfolding extract_instance
  extract_instances [] list db = done (list, db)
  extract_instances (name ∷ names) list db = do
    r ← extract_instance name list db
    extract_instances names r.0 r.1

  module _ {J D : Type 0} where
    -- `update` of the template registry, which also tells the tracker of the workers.
    unfoldable pub update_templates :
        (Template → J) → List Template → Server J D → Outcome (ℕ × Server J D)
    update_templates to_json list s = do
      r ← Templates.update to_json list s.templates
      let s' : Server J D = record s { templates = r.1 }
      done (elim r.2 [
        | none ↦ (r.0, s')
        | some names ↦ (r.0, record s' { instances = update_instance_list names s.instances })
      ])

    unfoldable pub execute_instance_extractor :
        (Template → J) → List String → Db → Server J D → Outcome (ℕ × Db × Server J D)
    unfolding extract_instances update_templates
    execute_instance_extractor to_json names db s = do
      r ← extract_instances names [] db
      u ← update_templates to_json r.0 s
      done (u.0, r.1, u.1)

    -- The body of the second loop over the names of user data.
    unfoldable pub extract_user_data : String → Db → Server J D → Outcome (Db × Server J D)
    unfolding select_where
    extract_user_data name db s =
        let fetch = (do
          record_name ←
              sql_query_db L a
                (select_where userdat_aliasname_col_id userdat_table_name userdat_dat_col_id name)
                "" db
          priority ←
              sql_query_db_get_int L junk a
                (select_where userdat_dat_priority_col_id userdat_table_name userdat_dat_col_id
                  name)
                "" record_name.1
          algo ←
              sql_query_db L a
                (select_where userdat_algo_col_id userdat_table_name userdat_dat_col_id name) ""
                priority.1
          let content = get_file_data cfg files name false
          let made = new_user_data_table name (get_task_priority priority.0) algo.0 content
          let u : UserDataTable = record made {
            user_table = record_name.0;
            instance_name = algo.0;
            content = content;
          }
          s₁ ← push_sender u (get_task_priority priority.0) s
          s₂ ← add_outgoing record_name.0 none s₁
          done (algo.1, s₂)) in
        if str_eq name "" then done (db, s) else fetch

    -- `executeUserTableExtractor`, which returns 0 always.
    unfoldable pub execute_user_table_extractor :
        List String → Db → Server J D → Outcome (Db × Server J D)
    unfolding extract_user_data
    execute_user_table_extractor [] db s = done (db, s)
    execute_user_table_extractor (name ∷ names) db s = do
      r ← extract_user_data name db s
      execute_user_table_extractor names r.0 r.1
