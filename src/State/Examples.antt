-- ===== src/State/Examples.antt =====
-- A database that keeps the status of one row, and a server that tracks the data of that row.
use server_unit.Base.{
  ◌≡◌, refl, ◌⊎◌, inl, inr, true, none, some, List, [], ◌∷◌, String, str_eq, if◌then◌else◌, Returns,
}
use server_unit.Task.{
  UserTaskStatus, data_queued, data_ready, data_sent, data_inter, data_final, data_error,
}
use server_unit.Config.{default_config}
use server_unit.Sql.{SqlLib, concat}
use server_unit.Worker.{OutgoingDataState}
use server_unit.Outgoing.{user_status_enum_to_string}
use server_unit.Sender.Examples.{server}
use server_unit.State.Statuses.{status_statement, make_calls, update_statuses}
use server_unit.State.Agreement.{Agrees, update_statuses-Agrees}

-- The statements that the row "u" understands.
abbrev read_status : List UserTaskStatus → String → String → String
unfolding status_statement user_status_enum_to_string
read_status [] query row = row
read_status (k ∷ ks) query row =
    if str_eq query (status_statement (user_status_enum_to_string k) "u")
    then user_status_enum_to_string k
    else read_status ks query row

abbrev one_row : SqlLib
one_row = record {
  Db = String;
  Row = String;
  connects = λ url username password. true;
  has_schema = λ name. true;
  run = λ query row. (
    some [],
    read_status (data_queued ∷ data_ready ∷ data_sent ∷ data_inter ∷ data_final ∷ data_error ∷ [])
        query row,
  );
  string_of = λ row column. some row;
  first_string = λ row. some row;
  int_of = λ row column. none;
  first_int = λ row. none;
}

abbrev Known : String → Type 0
Known j = (j ≡ "u") ⊎ (j ≡ "v")

writes_u :
    (k : UserTaskStatus) (d : String)
    → (one_row.run (status_statement (user_status_enum_to_string k) "u") d).1
      ≡ user_status_enum_to_string k
unfolding status_statement concat user_status_enum_to_string
writes_u data_queued d = refl
writes_u data_ready d = refl
writes_u data_sent d = refl
writes_u data_inter d = refl
writes_u data_final d = refl
writes_u data_error d = refl

writes_v :
    (k : UserTaskStatus) (d : String)
    → (one_row.run (status_statement (user_status_enum_to_string k) "v") d).1 ≡ d
unfolding status_statement concat user_status_enum_to_string
writes_v data_queued d = refl
writes_v data_ready d = refl
writes_v data_sent d = refl
writes_v data_inter d = refl
writes_v data_final d = refl
writes_v data_error d = refl

writes :
    (k : UserTaskStatus) (j : String) (d : String)
    → Known j
    → (one_row.run (status_statement (user_status_enum_to_string k) j) d).1
      ≡ (if str_eq j "u" then user_status_enum_to_string k else d)
writes k j d (inl e) = rw e (writes_u k d)
writes k j d (inr e) = rw e (writes_v k d)

abbrev queued : OutgoingDataState
queued = record { id = "u"; task_status = data_queued; worker = 0 }

abbrev updates : List (String × UserTaskStatus)
updates = ("u", data_sent) ∷ ("v", data_final) ∷ ("u", data_ready) ∷ []

in_step : Agrees one_row default_config (λ row j. row) "u" "Data has been queued" 40 queued server
unfolding user_status_enum_to_string make_calls
in_step = record {
  reachable = refl;
  watched = record {
    live = ((queued, refl), tt);
    tracked = record {
      before = [];
      after = [];
      listed = refl;
      others = tt;
      held = refl;
      same_id = refl;
    };
  };
  made = "Data has been queued";
  calls = refl;
  stored = refl;
}

update_statuses-Agrees_example :
    Returns
      (Agrees one_row default_config
        (λ row j. row)
        "u"
        "Data has been queued"
        40
        (record queued { task_status = data_sent }))
      (update_statuses updates server)
update_statuses-Agrees_example =
    update_statuses-Agrees one_row default_config refl (λ row j. row) Known "u" writes
      "Data has been queued" updates 40 queued server (inl refl, (inr refl, (inl refl, tt))) in_step
