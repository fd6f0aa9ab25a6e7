-- ===== src/Registry/Examples.antt =====
-- A registry of two workers, with one that is gone. The type of times is ℕ.
use mathlib.Core.List.{Nodup, Nodup-nil, Nodup-cons, not-mem-nil}
use server_unit.Base.{ℕ, ◌≡◌, refl, false, true, [], ◌∷◌, arith, Returns}
use server_unit.Task.{init_flag}
use server_unit.Worker.{Worker, new_worker}
use server_unit.Registry.{WorkerRegistry, has_uid, check_uid, delete_worker}
use server_unit.Registry.Identity.{all_uids, has_uid-mem}
use server_unit.Registry.Removal.{delete_worker-Nodup}

abbrev busy : Worker ℕ
busy = record (new_worker 0 "17") { sender_queue = 3 ∷ []; ack_pending_queue = 2 ∷ [] }

abbrev registry : WorkerRegistry ℕ
registry = record {
  current_worker_list =
      record { address = 1; worker = new_worker 0 "5" }
      ∷ record { address = 2; worker = busy }
      ∷ [];
  dead_worker_list = "33" ∷ [];
  new_worker_flag = init_flag false;
}

registry-Nodup : Nodup (all_uids registry)
unfolding has_uid
registry-Nodup = Nodup-cons.1 (
  has_uid-mem "5" ("17" ∷ "33" ∷ []) refl,
  Nodup-cons.1 (has_uid-mem "17" ("33" ∷ []) refl, Nodup-cons.1 (not-mem-nil, Nodup-nil)),
)

delete_worker-Nodup_example :
    Returns
      (λ d.
        (d.0 ≡ 2 ∷ 3 ∷ [])
        × (d.1.current_worker_list ≡ record { address = 1; worker = new_worker 0 "5" } ∷ [])
        × (check_uid d.1 "17" true ≡ false)
        × Nodup (all_uids d.1))
      (delete_worker 2 registry)
delete_worker-Nodup_example =
    delete_worker-Nodup registry 2 (record { address = 1; worker = new_worker 0 "5" } ∷ []) [] busy
      refl ((omega arith), tt) tt refl registry-Nodup
