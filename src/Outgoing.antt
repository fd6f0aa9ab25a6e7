-- ===== src/Outgoing.antt =====
-- packet_processor/outgoing_data_registry.cpp: the data that is under way. The list holds addresses
-- of states on a heap; `delete` is the C++ method of that name. A local flag and a member that the
-- constructor leaves unset hold what the memory held, the arguments `junk`.
pub mod Lookup
pub mod Status
pub mod Entries
pub mod Others
mod Examples
use mathlib.Core.Option
use server_unit.Base.{
  ℕ, zero, suc, Bool, true, false, Option, none, some, List, [], ◌∷◌, ◌++◌, String, str_eq, ltb,
  if◌then◌else◌, Outcome, done, fault, ◌>>=◌, Heap, load, update,
}
use server_unit.Base.Int.{ℤ, pos, negsuc}
use server_unit.Task.{
  UserTaskStatus, data_queued, data_ready, data_sent, data_inter, data_final, data_error,
  status_code,
}
use server_unit.Worker.{OutgoingDataState}

pub record OutgoingRegistry : Type 0 where
  pub out_data_registry_list : List ℕ
  pub states : Heap OutgoingDataState

-- The loop that the methods share: the address of the first entry with the identifier.
unfoldable pub find_entry : Heap OutgoingDataState → String → List ℕ → Outcome (Option ℕ)
find_entry states id [] = done none
find_entry states id (p ∷ ps) =
    let rest = find_entry states id ps in
    do s ← load states p; if str_eq s.id id then done (some p) else rest

-- `add`: the new state stands at the address `fresh`. `result_status` is the local flag as found,
-- and `junk` the worker of a state for which none is given.
unfoldable pub add : ℕ → Bool → ℕ → String → Option ℕ → OutgoingRegistry → Outcome OutgoingRegistry
add fresh result_status junk id worker r = do
  found ← find_entry r.states id r.out_data_registry_list
  let out_data : OutgoingDataState = record {
    id = id;
    task_status = data_queued;
    worker = Option.get_or worker junk;
  }
  let added : OutgoingRegistry = record {
    out_data_registry_list = r.out_data_registry_list ++ fresh ∷ [];
    states = update r.states fresh (some out_data);
  }
  let present : Bool = elim found [ none ↦ result_status | some _ ↦ true ]
  done (if present then r else added)

-- The loop of `delete`: what `erase(i--)` leaves `i` at, and the list without the entry.
unfoldable pub unlink_entry :
    Heap OutgoingDataState → String → Option ℕ → List ℕ → Outcome (Option (Option ℕ × List ℕ))
unlink_entry states id before [] = done none
unlink_entry states id before (p ∷ ps) =
    let rest = (do
      r ← unlink_entry states id (some p) ps
      done (Option.map (λ (s : Option ℕ × List ℕ). (s.0, p ∷ s.1)) r)) in
    do s ← load states p; if str_eq s.id id then done (some (before, ps)) else rest

-- `erase(i--); delete (*i);` frees the state of the entry before the erased one. Where the erased
-- one was first, `*i` is the end of the list.
unfoldable pub delete : String → OutgoingRegistry → Outcome (ℤ × OutgoingRegistry)
delete id r = do
  found ← unlink_entry r.states id none r.out_data_registry_list
  elim found [
    | none ↦ done (negsuc 0, r)
    | some (none, rest) ↦ fault
    | some (some before, rest) ↦
        done (pos 0, record { out_data_registry_list = rest; states = update r.states before none })
  ]

unfoldable pub find_match_in_list : String → OutgoingRegistry → Outcome Bool
find_match_in_list id r = do
  found ← find_entry r.states id r.out_data_registry_list
  done (elim found [ none ↦ false | some _ ↦ true ])

unfoldable pub assign_worker : String → ℕ → OutgoingRegistry → Outcome (Bool × OutgoingRegistry)
assign_worker id worker r = do
  found ← find_entry r.states id r.out_data_registry_list
  elim found [
    | none ↦ done (false, r)
    | some p ↦ do
      s ← load r.states p
      done (true, record r { states = update r.states p (some (record s { worker = worker })) })
  ]

unfoldable pub user_status_enum_to_string : UserTaskStatus → String
user_status_enum_to_string data_queued = "Data has been queued"
user_status_enum_to_string data_ready = "Searching for free workers"
user_status_enum_to_string data_sent = "Data has been sent to worker"
user_status_enum_to_string data_inter = "Intermediate data received successfully"
user_status_enum_to_string data_final = "Success"
user_status_enum_to_string data_error = "Error in uploaded data"

-- What `updateTaskStatus` returns, the registry, and the text that `updateStatusInDb` is called
-- with, if it is called. None of the texts is empty.
pub record Updated : Type 0 where
  pub result : Bool
  pub registry : OutgoingRegistry
  pub written : Option String

-- `reachable` is whether the database takes the connection that `updateStatusInDb` makes and uses at
-- once.
unfoldable pub update_task_status :
    Bool → String → UserTaskStatus → OutgoingRegistry → Outcome Updated
update_task_status reachable id status r = do
  found ← find_entry r.states id r.out_data_registry_list
  let unchanged : Updated = record { result = true; registry = r; written = none }
  elim found [
    | none ↦ done (record { result = false; registry = r; written = none })
    | some p ↦ do
      s ← load r.states p
      let raised : Updated = record {
        result = true;
        registry = record r {
          states = update r.states p (some (record s { task_status = status }));
        };
        written = some (user_status_enum_to_string status);
      }
      let written = if reachable then done raised else fault
      if ltb (status_code status) (status_code s.task_status) then done unchanged else written
  ]

-- NULL is none.
unfoldable pub get_registry_from_id : String → OutgoingRegistry → Outcome (Option ℕ)
get_registry_from_id id r = find_entry r.states id r.out_data_registry_list
