-- ===== src/Instances/Examples.antt =====
-- A worker that was sent two templates and acknowledges them in the other order.

use mathlib.Core.List.Perm
use server_unit.Base.{ℕ, false, ◌≡◌, refl, List, [], ◌∷◌, String, done}
use server_unit.Task.{init_flag}
use server_unit.Worker.{Worker, new_worker, set_worker_ready}
use server_unit.Registry.{WorkerRegistry, get_worker_from_uid, find_uid, find_worker, put_worker}
use server_unit.Instances.{WorkerInstanceList, update_worker}
use server_unit.Instances.Readiness.{entry, acknowledge, acknowledge-ready}

abbrev worker : Worker ℕ
worker = new_worker 0 "5"

abbrev registry : WorkerRegistry ℕ
registry = record {
  current_worker_list =
      record { address = 1; worker = new_worker 0 "4" }
      ∷ record { address = 2; worker = worker }
      ∷ [];
  dead_worker_list = [];
  new_worker_flag = init_flag false;
}

abbrev tracked : WorkerInstanceList
tracked = record {
  worker_list = entry "4" ("x" ∷ []) ∷ entry "5" ("x" ∷ "y" ∷ []) ∷ [];
  template_id_list = "x" ∷ "y" ∷ [];
}

acknowledge-ready_example :
    (left : List String) × (acknowledge "5" ("y" ∷ []) tracked registry
      ≡ done
          (record tracked { worker_list = entry "4" ("x" ∷ []) ∷ entry "5" left ∷ [] }, registry))
    × (update_worker "5" "x"
          (record tracked { worker_list = entry "4" ("x" ∷ []) ∷ entry "5" left ∷ [] })
          registry
        ≡ done (
          record tracked { worker_list = entry "4" ("x" ∷ []) ∷ [] },
          record registry {
            current_worker_list =
                put_worker 2 (set_worker_ready worker) registry.current_worker_list;
          },
        ))
unfolding get_worker_from_uid find_uid find_worker
acknowledge-ready_example =
    acknowledge-ready "5" "x" ("y" ∷ []) ("x" ∷ "y" ∷ []) (entry "4" ("x" ∷ []) ∷ []) [] tracked
      registry 2 worker (refl, tt) refl (Perm.swap "x" "y" []) refl refl
