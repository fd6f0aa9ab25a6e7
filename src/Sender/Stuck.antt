-- ===== src/Sender/Stuck.antt =====
-- Where the sender job goes wrong.
use server_unit.Base.{
  ℕ, ◌≡◌, refl, ap, ◌∙◌, false, none, List, [], ◌∷◌, String, str_eq, arith, All, map, done, fault,
  ◌>>=◌,
}
use server_unit.Task.{low_priority}
use server_unit.Double.{DoubleLib}
use server_unit.Json.{JsonLib}
use server_unit.Registry.{Entry, uid_of}
use server_unit.Templates.{reset_updated}
use server_unit.State.{Server}
use server_unit.Sender.Ideal.{is_candidate, consider_worker, best_worker, find_ideal_worker}
use server_unit.Sender.Push.{
  has_other, add_workers, push_instance, update_all_worker_instances, push_packets,
  push_pending_packets, start_sender_core,
}

-- The list holds `uid` only.
add_workers-others :
    (uid : String) (uids : List String)
    → All (λ u. str_eq uid u ≡ false) uids
    → add_workers uids (uid ∷ []) ≡ uid ∷ []
unfolding add_workers has_other
add_workers-others uid [] h = refl
add_workers-others uid (u ∷ uids) h = ground (arith, add_workers-others uid uids h.1, h.0)

module _ (J : JsonLib) (F : DoubleLib) where
  open J use {Json}
  open F use {Double}

  best_worker-none :
      (es : List (Entry Double))
      → All (λ e. is_candidate F e.worker ≡ false) es
      → best_worker F low_priority none es ≡ done none
  unfolding best_worker consider_worker
  best_worker-none [] h = refl
  best_worker-none (e ∷ es) h = rw (h.0, consider_worker) (best_worker-none es h.1)

  -- With a packet to hand over and no worker that is ready and has sent statistics, the job
  -- follows a null pointer.
  pub start_sender_core-fault :
      (s : Server Json Double) (p : ℕ) (ps : List ℕ)
      → s.pending_packets_list ≡ p ∷ ps
      → All (λ e. is_candidate F e.worker ≡ false) s.registry.current_worker_list
      → start_sender_core J F s ≡ fault
  unfolding start_sender_core push_pending_packets push_packets find_ideal_worker
  start_sender_core-fault s p ps e h =
      ground (arith, best_worker-none s.registry.current_worker_list h)

  -- With no new workers, an update of all workers is an update of the first one only, if the
  -- others have other identifiers: the flag is reset and they never get the templates.
  pub update_all_worker_instances-first :
      (s : Server Json Double) (e : Entry Double) (es : List (Entry Double))
      → s.new_worker_list ≡ []
      → s.registry.current_worker_list ≡ e ∷ es
      → All (λ u. str_eq (uid_of e) u ≡ false) (map uid_of es)
      → update_all_worker_instances J F s ≡ (do
        s' ← push_instance J F (uid_of e ∷ []) s
        done (record s' { templates = reset_updated s'.templates }))
  unfolding update_all_worker_instances add_workers has_other
  update_all_worker_instances-first s e es n l h =
      ap
        (λ uids. do
          s' ← push_instance J F uids s
          done (record s' { templates = reset_updated s'.templates }))
        (ap (λ r. add_workers (map uid_of r) s.new_worker_list) l
          ∙ ap (add_workers (map uid_of (e ∷ es))) n
          ∙ add_workers-others (uid_of e) (map uid_of es) h)
