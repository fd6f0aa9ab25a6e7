-- ===== src/Extractor/Examples.antt =====
-- User data of a file that is there.
use mathlib.Core.List.{Perm}
use server_unit.Base.{ℕ, ◌≡◌, refl, true, Option, some, List, [], ◌∷◌, arith, String, done, Returns}
use server_unit.Base.Int.{pos}
use server_unit.Config.{default_config}
use server_unit.Task.{data_queued, medium_priority}
use server_unit.Sink.{SinkItem, new_item}
use server_unit.Sql.{SqlAccess, new_sql_access, sql_query_db, sql_query_db_get_int}
use server_unit.Sql.Concrete.{statements}
use server_unit.Json.Concrete.{Value}
use server_unit.State.{Server, UserDataTable}
use server_unit.Sender.Examples.{server}
use server_unit.Outgoing.Status.{Tracks}
use server_unit.Extractor.{get_task_priority, select_where, extract_user_data}
use server_unit.Extractor.UserData.{
  Answered, IsNew, extracted, queued_state, extract_user_data-queued,
}

abbrev access : SqlAccess
access = record (new_sql_access "tcp" "mcu" "password" "web" "t") { connected = true }

abbrev files : String → Option String
files path = some "1,2"

abbrev asked : String → String
asked column = select_where column "Home_filelog" "file_name" "f.csv"

text_answer :
    (column : String) (db : List String)
    → sql_query_db (statements true) access (asked column) "" db ≡ done ("1", asked column ∷ db)
unfolding sql_query_db
text_answer column db = refl

number_answer :
    (column : String) (db : List String)
    → sql_query_db_get_int (statements true) (pos 7) access (asked column) "" db
      ≡ done (pos 1, asked column ∷ db)
unfolding sql_query_db_get_int
number_answer column db = refl

abbrev answered : Answered (statements true) default_config files access (pos 7) "f.csv" []
answered = record {
  id = "1";
  priority = pos 1;
  algo = "1";
  db₁ = asked "aliasname" ∷ [];
  db₂ = asked "priority" ∷ asked "aliasname" ∷ [];
  db₃ = asked "instance_name" ∷ asked "priority" ∷ asked "aliasname" ∷ [];
  first = text_answer "aliasname" [];
  second = number_answer "priority" (asked "aliasname" ∷ []);
  third = text_answer "instance_name" (asked "priority" ∷ asked "aliasname" ∷ []);
  present = refl;
}

-- A server with items in its sender sink.
abbrev with_items : List (SinkItem UserDataTable) → Server Value ℕ
with_items items = record server {
  sender_sink = record { sink_item_list = items; sink_lock = 1; sink_limit = 20 };
}

is_new :
    (items : List (SinkItem UserDataTable))
    → IsNew
        (statements true)
        default_config
        files
        access
        (pos 7)
        "f.csv"
        []
        answered
        (with_items items)
is_new items = record {
  untracked = ((record { id = "u"; task_status = data_queued; worker = 0 }, refl, refl), tt);
  free = refl;
  off = refl;
}

extract_user_data-queued_example :
    Returns
      (λ r.
        Perm r.1.sender_sink.sink_item_list (
          new_item
            (extracted (statements true) default_config files access (pos 7) "f.csv" [] answered)
            medium_priority
            0
          ∷ [])
        × Tracks r.1.outgoing "1" 51 (
            queued_state
              (statements true)
              default_config
              files
              access
              (pos 7)
              "f.csv"
              []
              answered
              (with_items [])))
      (extract_user_data
        (statements true)
        default_config
        files
        access
        (pos 7)
        "f.csv"
        []
        (with_items []))
unfolding get_task_priority
extract_user_data-queued_example =
    extract_user_data-queued (statements true) default_config files access (pos 7) "f.csv" []
      answered (with_items []) (record { free = refl; below = omega arith }) (is_new [])
