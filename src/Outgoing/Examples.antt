-- ===== src/Outgoing/Examples.antt =====
-- A registry of two entries.
use mathlib.Core.List.{Mem}
use server_unit.Base.{
  ◌≤◌, ◌≡◌, ◌⊎◌, refl, none, some, List, [], ◌∷◌, String, All, ◌==◌, if◌then◌else◌, Returns,
}
use server_unit.Task.{
  UserTaskStatus, data_queued, data_ready, data_sent, data_inter, data_final, status_code,
}
use server_unit.Worker.{OutgoingDataState}
use server_unit.Outgoing.{OutgoingRegistry}
use server_unit.Outgoing.Status.{Tracks, update_all, update_all-highest}

abbrev state_of : String → UserTaskStatus → OutgoingDataState
state_of id status = record { id = id; task_status = status; worker = 1 }

abbrev registry : OutgoingRegistry
registry = record {
  out_data_registry_list = 2 ∷ 4 ∷ [];
  states = λ p.
      if p == 2
      then some (state_of "a" data_queued)
      else if p == 4
      then some (state_of "b" data_inter)
      else none;
}

b-Tracks : Tracks registry "b" 4 (state_of "b" data_inter)
b-Tracks = record {
  before = 2 ∷ [];
  after = [];
  listed = refl;
  others = ((state_of "a" data_queued, refl, refl), tt);
  held = refl;
  same_id = refl;
}

abbrev updates : List UserTaskStatus
updates = data_sent ∷ data_final ∷ data_ready ∷ []

update_all-highest_example :
    Returns
      (λ r'.
        (k : UserTaskStatus) × Tracks r' "b" 4
          (record (state_of "b" data_inter) { task_status = k })
        × (status_code data_inter ≤ status_code k)
        × All (λ j. status_code j ≤ status_code k) updates
        × ((k ≡ data_inter) ⊎ Mem k updates))
      (update_all "b" updates registry)
update_all-highest_example =
    update_all-highest "b" updates registry 4 (state_of "b" data_inter) b-Tracks
