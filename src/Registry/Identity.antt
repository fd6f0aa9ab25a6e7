-- ===== src/Registry/Identity.antt =====
-- Identifiers are given once.
use mathlib.Core.List.{Mem, Nodup, Nodup-cons, not-mem-nil, mem-cons, mem-append}
use mathlib.Core.Logic.Or
use mathlib.Core.HLevel.{⊥_prop}
use server_unit.Base.{
  ℕ, zero, suc, ◌+◌, ◌≡◌, ◌⊎◌, refl, true, false, none, some, List, [], ◌∷◌, ◌++◌, String, eq_iff,
  eq_refl, arith,
}
use server_unit.Worker.{new_worker}
use server_unit.Registry.{
  WorkerRegistry, has_uid, current_uids, check_uid, draw_uid, generate_worker_uid, to_string,
  get_worker_from_uid,
}

pub has_uid-mem : (uid : String) (us : List String) → has_uid uid us ≡ false → ¬ Mem uid us
unfolding has_uid
has_uid-mem uid [] h m = not-mem-nil m
has_uid-mem uid (u ∷ us) h m =
    Or.elim ⊥_prop (mem-cons.0 m) (λ e. ground (arith, eq_iff u uid))
      (has_uid-mem uid us (ground arith))

module _ {D : Type 0} where
  -- No worker, connected or gone, has the identifier.
  pub record IsUnused (uid : String) (r : WorkerRegistry D) : Type 0 where
    pub not_current : has_uid uid (current_uids r) ≡ false
    pub not_dead : has_uid uid r.dead_worker_list ≡ false

  -- All identifiers ever given, to workers that are connected or gone.
  abbrev pub all_uids : WorkerRegistry D → List String
  all_uids r = current_uids r ++ r.dead_worker_list

  draw_uid-false :
      (fuel : ℕ) (r : WorkerRegistry D) (draws : ℕ → ℕ) (k : ℕ)
      → draw_uid fuel r draws k false ≡ none
  unfolding draw_uid check_uid
  draw_uid-false zero r draws k = refl
  draw_uid-false (suc fuel) r draws k = ground (arith, draw_uid-false fuel r draws (k + 1))

  -- If the first number drawn is in use, by a worker that is connected or gone, the call never
  -- returns, whatever is drawn after it: there is no result for any fuel.
  pub generate_worker_uid-endless :
      (fuel : ℕ) (draws : ℕ → ℕ) (fresh : ℕ) (zero_time : D) (r : WorkerRegistry D)
      (names : List String)
      → ((has_uid (to_string (draws 0)) (current_uids r) ≡ true)
          ⊎ (has_uid (to_string (draws 0)) r.dead_worker_list ≡ true))
      → generate_worker_uid fuel draws fresh zero_time r names ≡ none
  unfolding generate_worker_uid check_uid
  generate_worker_uid-endless zero draws fresh zero_time r names h = refl
  generate_worker_uid-endless (suc fuel) draws fresh zero_time r names h =
      ground (arith, draw_uid-false fuel r draws (0 + 1))

  pub generate_worker_uid-unused :
      (fuel : ℕ) (draws : ℕ → ℕ) (fresh : ℕ) (zero_time : D) (r : WorkerRegistry D)
      (names : List String)
      → IsUnused (to_string (draws 0)) r
      → Nodup (all_uids r)
      → (r' : WorkerRegistry D) × (generate_worker_uid (suc fuel) draws fresh zero_time r names
          ≡ some (to_string (draws 0), r', names ++ to_string (draws 0) ∷ []))
        × (get_worker_from_uid (to_string (draws 0)) r' ≡ some fresh)
        × (all_uids r' ≡ to_string (draws 0) ∷ all_uids r)
        × Nodup (all_uids r')
  unfolding generate_worker_uid check_uid get_worker_from_uid
  generate_worker_uid-unused fuel draws fresh zero_time r names u d = (
    record r {
      current_worker_list =
          record { address = fresh; worker = new_worker zero_time (to_string (draws 0)) }
          ∷ r.current_worker_list;
      new_worker_flag = record { flag = true };
    },
    ground (arith, u.not_current, u.not_dead),
    ground (arith, eq_refl (to_string (draws 0))),
    refl,
    Nodup-cons.1 (
      (λ m.
          Or.elim ⊥_prop (mem-append.0 m)
            (has_uid-mem (to_string (draws 0)) (current_uids r) u.not_current)
            (has_uid-mem (to_string (draws 0)) r.dead_worker_list u.not_dead)),
      d,
    ),
  )
