-- ===== src/Instances.antt =====
-- sender_unit/worker_instance_list.cpp: which templates each tracked worker has still to
-- acknowledge. A worker is ready for data once its list is empty.
pub mod Readiness
mod Examples
use server_unit.Base.{
  ℕ, zero, suc, Bool, true, false, Option, none, some, List, [], ◌∷◌, ◌++◌, String, str_eq,
  if◌then◌else◌, Outcome, done, fault, ◌>>=◌,
}
use server_unit.Worker.{Worker, set_worker_ready, reset_worker_ready}
use server_unit.Registry.{WorkerRegistry, get_worker_from_uid, modify_worker}

pub record WorkerInstance : Type 0 where
  pub worker_uid : String
  pub template_ids : List String

pub record WorkerInstanceList : Type 0 where
  pub worker_list : List WorkerInstance
  pub template_id_list : List String

unfoldable pub new_instances : WorkerInstanceList
new_instances = record { worker_list = []; template_id_list = [] }

-- `WorkerInstanceStruct::update`: the first entry that is the template goes.
unfoldable pub erase_template : String → List String → List String
erase_template id [] = []
erase_template id (t ∷ ts) = if str_eq id t then ts else t ∷ erase_template id ts

abbrev pub update_instance_list : List String → WorkerInstanceList → WorkerInstanceList
update_instance_list names l = record l { template_id_list = names }

module _ {D : Type 0} where
  -- An unknown worker is logged only; a known one is no longer ready, and tracked once more.
  unfoldable pub add_worker :
      String
      → WorkerInstanceList
      → WorkerRegistry D
      → Outcome (WorkerInstanceList × WorkerRegistry D)
  add_worker uid l r = elim (get_worker_from_uid uid r) [
    | none ↦ done (l, r)
    | some a ↦ do
      r' ← modify_worker a reset_worker_ready r
      let entry : WorkerInstance = record { worker_uid = uid; template_ids = l.template_id_list }
      done (record l { worker_list = l.worker_list ++ entry ∷ [] }, r')
  ]

  -- What an acknowledgement of `id` does to the first entry of the worker, whose other templates
  -- are `left`: with none left the worker is ready and the entry goes. NULL is followed.
  unfoldable pub settle :
      String
      → List String
      → List WorkerInstance
      → WorkerRegistry D
      → Outcome (List WorkerInstance × WorkerRegistry D)
  settle uid [] rest r = elim (get_worker_from_uid uid r) [
    | none ↦ fault
    | some a ↦ do r' ← modify_worker a set_worker_ready r; done (rest, r')
  ]
  settle uid (t ∷ ts) rest r = done (record { worker_uid = uid; template_ids = t ∷ ts } ∷ rest, r)

  unfoldable pub update_entries :
      String
      → String
      → List WorkerInstance
      → WorkerRegistry D
      → Outcome (List WorkerInstance × WorkerRegistry D)
  unfolding erase_template settle
  update_entries uid id [] r = done ([], r)
  update_entries uid id (e ∷ es) r =
      let rest = (do s ← update_entries uid id es r; done (e ∷ s.0, s.1)) in
      if str_eq uid e.worker_uid
      then settle e.worker_uid (erase_template id e.template_ids) es r
      else rest

  unfoldable pub update_worker :
      String
      → String
      → WorkerInstanceList
      → WorkerRegistry D
      → Outcome (WorkerInstanceList × WorkerRegistry D)
  unfolding update_entries
  update_worker uid id l r = do
    s ← update_entries uid id l.worker_list r
    done (record l { worker_list = s.0 }, s.1)
