-- ===== src/Config.antt =====
-- configs.cpp: the names of the database and of the directories. What the dialogue of main.cpp may
-- change is a record; the other strings are constants.
use server_unit.Base.{String, str_eq, ◌||◌, if◌then◌else◌}

pub record Config : Type 0 where
  pub home_dir : String
  pub database_name : String
  pub database_username : String
  pub database_password : String

abbrev pub default_config : Config
default_config = record {
  home_dir = "/home/tejas/temp";
  database_name = "web";
  database_username = "mcu";
  database_password = "password";
}

-- The answers of the dialogue: an empty directory keeps the default, and one empty answer of the
-- other three keeps all three.
unfoldable pub configure : String → String → String → String → Config
configure dir name username password =
    let c = if str_eq dir "" then default_config else record default_config { home_dir = dir } in
    if str_eq username "" || (str_eq password "" || str_eq name "") then c else record c {
      database_name = name;
      database_username = username;
      database_password = password;
    }

abbrev pub database_url : String
database_url = "tcp://127.0.0.1:3306"

abbrev pub template_file_data_dir : String
template_file_data_dir = "/instance/"

abbrev pub user_file_data_dir : String
user_file_data_dir = "/user_data/"

abbrev pub final_result_data_dir : String
final_result_data_dir = "/final_result/"

abbrev pub inter_result_data_dir : String
inter_result_data_dir = "/inter_result/"

abbrev pub userdat_table_name : String
userdat_table_name = "Home_filelog"

abbrev pub userdat_dat_col_id : String
userdat_dat_col_id = "file_name"

abbrev pub userdat_res_col_id : String
userdat_res_col_id = "final_result"

abbrev pub userdat_algo_col_id : String
userdat_algo_col_id = "instance_name"

abbrev pub userdat_dat_priority_col_id : String
userdat_dat_priority_col_id = "priority"

abbrev pub userdat_aliasname_col_id : String
userdat_aliasname_col_id = "aliasname"

abbrev pub userdat_status_col_id : String
userdat_status_col_id = "status"

abbrev pub template_table_name : String
template_table_name = "Home_instances"

abbrev pub template_name_col_id : String
template_name_col_id = "instance_name"

abbrev pub template_algo_col_id : String
template_algo_col_id = "algorithm"

abbrev pub template_file_col_id : String
template_file_col_id = "csvfile"
