-- ===== src/Sender/Packets.antt =====
-- The packets that `UserDataTable::toJson` of sender_unit/user_data.cpp and the last loop of
-- `UserDataTemplate::update` of sender_unit/userdata_template_registry.cpp make.
use server_unit.Base.{Option, none, some, String, Outcome, done, fault}
use server_unit.Task.{priority_code}
use server_unit.Json.{JsonLib}
use server_unit.Templates.{Template}
use server_unit.State.{UserDataTable}

module _ (J : JsonLib) where
  open J use {Json, null, at, assign, of_string, of_number, get_string}

  -- `packet["body"][key] = v`.
  abbrev pub set_in_body : Json → String → Json → Json
  set_in_body packet key v = assign packet "body" (assign (at packet "body") key v)

  -- A missing text is a null pointer that is followed.
  unfoldable pub user_data_to_json : UserDataTable → Outcome Json
  user_data_to_json u = elim u.content [
    | none ↦ fault
    | some text ↦
        let table = set_in_body null "tableid" (of_string u.user_table) in
        let ranked = set_in_body table "priority" (of_number (priority_code u.priority)) in
        let typed = set_in_body ranked "instancetype" (of_string u.instance_name) in
        done (set_in_body typed "data" (of_string text))
  ]

  unfoldable pub template_to_json : Template → Json
  template_to_json t =
      let named = set_in_body null "instanceid" (of_string t.template_name) in
      let typed = set_in_body named "algotype" (of_number t.algo_type) in
      set_in_body typed "data" (of_string t.content)

  -- `packet["body"]["instanceid"]` as a string; none is an exception.
  unfoldable pub instance_id : Json → Option String
  instance_id packet = get_string (at (at packet "body") "instanceid")
