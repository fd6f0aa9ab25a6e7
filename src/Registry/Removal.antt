-- ===== src/Registry/Removal.antt =====
-- A worker that is removed.
use mathlib.Core.List.{Perm, Nodup, perm_middle}
use mathlib.Core.List.Perm
use server_unit.Base.{
  ℕ, ◌≡◌, ◌≢◌, refl, subst, ap, true, false, some, List, [], ◌∷◌, ◌++◌, map, String, All, arith,
  done, Returns, Returns-of_eq, eq_refl,
}
use server_unit.Worker.{Worker, shut_down}
use server_unit.Registry.{
  Entry, WorkerRegistry, uid_of, has_uid, check_uid, find_worker, remove_worker, delete_worker,
}
use server_unit.Registry.Identity.{all_uids}

module _ {D : Type 0} where
  -- The entry is at another address.
  abbrev pub Elsewhere : ℕ → Entry D → Type 0
  Elsewhere a e = e.address ≢ a

  find_worker-found :
      (a : ℕ) (before after : List (Entry D)) (w : Worker D)
      → All (Elsewhere a) before
      → find_worker a (before ++ record { address = a; worker = w } ∷ after) ≡ some w
  unfolding find_worker
  find_worker-found a [] after w h = ground arith
  find_worker-found a (e ∷ before) after w (ne, h) =
      ground (arith, find_worker-found a before after w h)

  remove_worker_absent :
      (a : ℕ) (es : List (Entry D)) → All (Elsewhere a) es → remove_worker a es ≡ es
  unfolding remove_worker
  remove_worker_absent a [] h = refl
  remove_worker_absent a (e ∷ es) (ne, h) = ground (arith, remove_worker_absent a es h)

  remove_worker-found :
      (a : ℕ) (before after : List (Entry D)) (w : Worker D)
      → All (Elsewhere a) before
      → All (Elsewhere a) after
      → remove_worker a (before ++ record { address = a; worker = w } ∷ after) ≡ before ++ after
  unfolding remove_worker
  remove_worker-found a [] after w h k = ground (arith, remove_worker_absent a after k)
  remove_worker-found a (e ∷ before) after w (ne, h) k =
      ground (arith, remove_worker-found a before after w h k)

  delete_worker-eq :
      (r : WorkerRegistry D) (a : ℕ) (before after : List (Entry D)) (w : Worker D)
      → r.current_worker_list ≡ before ++ record { address = a; worker = w } ∷ after
      → All (Elsewhere a) before
      → All (Elsewhere a) after
      → w.worker_lock ≡ 1
      → delete_worker a r
        ≡ done (
          w.ack_pending_queue ++ w.sender_queue,
          record r {
            current_worker_list = before ++ after;
            dead_worker_list = w.worker_uid ∷ r.dead_worker_list;
          },
        )
  unfolding delete_worker shut_down
  delete_worker-eq r a before after w e h k free = ground (
    arith,
    ap (find_worker a) e,
    ap (remove_worker a) e,
    find_worker-found a before after w h,
    remove_worker-found a before after w h k,
  )

  uids_moved :
      (before after : List (Entry D)) (e : Entry D) (dead : List String)
      → Perm
          (map uid_of (before ++ after) ++ uid_of e ∷ dead)
          (map uid_of (before ++ e ∷ after) ++ dead)
  uids_moved [] after e dead = perm_middle (map uid_of after) dead
  uids_moved (x ∷ before) after e dead = Perm.cons (uid_of x) (uids_moved before after e dead)

  -- Deleting a connected worker with a free lock returns all its packets, first those that wait
  -- for an acknowledgement. Its identifier moves to those of dead workers and is refused by the
  -- check for new ones from then on, and distinct identifiers stay distinct.
  pub delete_worker-Nodup :
      (r : WorkerRegistry D) (a : ℕ) (before after : List (Entry D)) (w : Worker D)
      → r.current_worker_list ≡ before ++ record { address = a; worker = w } ∷ after
      → All (Elsewhere a) before
      → All (Elsewhere a) after
      → w.worker_lock ≡ 1
      → Nodup (all_uids r)
      → Returns
          (λ d.
            (d.0 ≡ w.ack_pending_queue ++ w.sender_queue)
            × (d.1.current_worker_list ≡ before ++ after)
            × (check_uid d.1 w.worker_uid true ≡ false)
            × Nodup (all_uids d.1))
          (delete_worker a r)
  unfolding check_uid has_uid
  delete_worker-Nodup r a before after w e h k free d =
      Returns-of_eq _ (delete_worker a r) (delete_worker-eq r a before after w e h k free) (
        refl,
        refl,
        ground (arith, eq_refl w.worker_uid),
        Perm.nodup
            (Perm.symm
              (uids_moved before after (record { address = a; worker = w }) r.dead_worker_list))
            (subst (λ l. Nodup (map uid_of l ++ r.dead_worker_list)) e d),
      )
