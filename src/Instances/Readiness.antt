-- ===== src/Instances/Readiness.antt =====
-- When a worker becomes ready.

use mathlib.Core.Logic.{∥∥₁_prop}
use mathlib.Core.List.{Mem, Perm, mem-cons, mem-cons_self, not-mem-nil}
use mathlib.Core.List.Perm
use mathlib.Core.Logic.Or
use server_unit.Base.{
  ℕ, ◌≡◌, refl, subst, ap, false, some, List, [], ◌∷◌, ◌++◌, String, str_eq, eq_iff, eq_refl, All,
  arith, Outcome, done, ◌>>=◌, Bool-cases, inl, inr,
}
use server_unit.Worker.{Worker, set_worker_ready}
use server_unit.Registry.{
  WorkerRegistry, get_worker_from_uid, find_worker, put_worker, modify_worker,
}
use server_unit.Instances.{
  WorkerInstance, WorkerInstanceList, erase_template, update_entries, update_worker,
}

erase_template-perm :
    (id : String) (ts : List String) → Mem id ts → Perm ts (id ∷ erase_template id ts)
unfolding erase_template
erase_template-perm id [] m = absurd (not-mem-nil m)
erase_template-perm id (t ∷ ts) m = elim (Bool-cases (str_eq id t)) [
  | inl e ↦
      rw (e, erase_template) (subst (λ x. Perm (x ∷ ts) (id ∷ ts)) ((eq_iff id t).0 e) Perm.rfl)
  | inr e ↦
      rw (e, erase_template)
        (Or.elim ∥∥₁_prop (mem-cons.0 m) (λ eq. absurd (ground (arith, eq_iff id t)))
          (λ m'.
            Perm.trans (Perm.cons t (erase_template-perm id ts m'))
              (Perm.swap id t (erase_template id ts))))
]

-- The entry is of another worker.
abbrev pub Other : String → WorkerInstance → Type 0
Other uid e = (str_eq uid e.worker_uid) ≡ false

abbrev pub entry : String → List String → WorkerInstance
entry uid ids = record { worker_uid = uid; template_ids = ids }

-- What is left of `ids` behind the acknowledgements.
abbrev left_over : List String → List String → List String
left_over [] ids = ids
left_over (a ∷ acks) ids = left_over acks (erase_template a ids)

erase_template-inv :
    (a : String) (xs ids : List String) → Perm (a ∷ xs) ids → Perm xs (erase_template a ids)
erase_template-inv a xs ids p =
    Perm.cons_inv (Perm.trans p (erase_template-perm a ids (Perm.subset p a mem-cons_self)))

left_over-perm : (acks xs ids : List String) → Perm (acks ++ xs) ids → Perm xs (left_over acks ids)
left_over-perm [] xs ids p = p
left_over-perm (a ∷ acks) xs ids p =
    left_over-perm acks xs (erase_template a ids) (erase_template-inv a (acks ++ xs) ids p)

perm-nonempty :
    (x : String) (xs ys : List String)
    → Perm (x ∷ xs) ys
    → (t : String) × (ts : List String) × (ys ≡ t ∷ ts)
perm-nonempty x xs [] p = absurd (not-mem-nil (Perm.subset p x mem-cons_self))
perm-nonempty x xs (y ∷ ys) p = (y, ys, refl)

perm-empty : (ys : List String) → Perm [] ys → ys ≡ []
perm-empty [] p = refl
perm-empty (y ∷ ys) p = absurd (not-mem-nil (Perm.subset (Perm.symm p) y mem-cons_self))

module _ {D : Type 0} where
  -- The acknowledgements of a worker, one after the other.
  unfoldable pub acknowledge :
      String
      → List String
      → WorkerInstanceList
      → WorkerRegistry D
      → Outcome (WorkerInstanceList × WorkerRegistry D)
  acknowledge uid [] l r = done (l, r)
  acknowledge uid (id ∷ ids) l r = do s ← update_worker uid id l r; acknowledge uid ids s.0 s.1

  update_entries-kept :
      (uid id t : String) (ids ts : List String) (before after : List WorkerInstance)
      (r : WorkerRegistry D)
      → All (Other uid) before
      → erase_template id ids ≡ t ∷ ts
      → update_entries uid id (before ++ entry uid ids ∷ after) r
        ≡ done (before ++ entry uid (t ∷ ts) ∷ after, r)
  unfolding update_entries
  update_entries-kept uid id t ids ts [] after r h e = ground (arith, eq_refl uid)
  update_entries-kept uid id t ids ts (b ∷ before) after r (o, h) e =
      ground (arith, update_entries-kept uid id t ids ts before after r h e)

  update_entries-settled :
      (uid id : String) (ids : List String) (before after : List WorkerInstance)
      (r : WorkerRegistry D) (a : ℕ) (w : Worker D)
      → All (Other uid) before
      → erase_template id ids ≡ []
      → get_worker_from_uid uid r ≡ some a
      → find_worker a r.current_worker_list ≡ some w
      → update_entries uid id (before ++ entry uid ids ∷ after) r
        ≡ done (
          before ++ after,
          record r {
            current_worker_list = put_worker a (set_worker_ready w) r.current_worker_list;
          },
        )
  unfolding update_entries modify_worker
  update_entries-settled uid id ids [] after r a w h e g f = ground (arith, eq_refl uid)
  update_entries-settled uid id ids (b ∷ before) after r a w (o, h) e g f =
      ground (arith, update_entries-settled uid id ids before after r a w h e g f)

  acknowledge-partial :
      (uid more : String) (acks rest ids : List String) (before after : List WorkerInstance)
      (l : WorkerInstanceList) (r : WorkerRegistry D)
      → All (Other uid) before
      → l.worker_list ≡ before ++ entry uid ids ∷ after
      → Perm (acks ++ more ∷ rest) ids
      → acknowledge uid acks l r
        ≡ done (record l { worker_list = before ++ entry uid (left_over acks ids) ∷ after }, r)
  unfolding acknowledge update_worker
  acknowledge-partial uid more [] rest ids before after l r h e p = ground arith
  acknowledge-partial uid more (a ∷ acks) rest ids before after l r h e p =
      let q = erase_template-inv a (acks ++ more ∷ rest) ids p in
      let (t, ts, eq) = nonempty acks q in
      ground (
        arith,
        ap (λ es. update_entries uid a es r) e,
        update_entries-kept uid a t ids ts before after r h eq,
        acknowledge-partial uid more acks rest (erase_template a ids) before after
            (record l { worker_list = before ++ entry uid (erase_template a ids) ∷ after }) r h refl
            q,
      )
    where
      nonempty :
          (acks : List String) {ys : List String}
          → Perm (acks ++ more ∷ rest) ys
          → (t : String) × (ts : List String) × (ys ≡ t ∷ ts)
      nonempty [] {ys} q = perm-nonempty more rest ys q
      nonempty (b ∷ acks) {ys} q = perm-nonempty b (acks ++ more ∷ rest) ys q

  -- A tracked worker becomes ready with the last of its templates: whatever the order `acks`, then
  -- `last`, in which the templates of its first entry are acknowledged, nothing happens to the
  -- workers before the last one, and with the last one the worker is ready and the entry is gone.
  pub acknowledge-ready :
      (uid last : String) (acks ids : List String) (before after : List WorkerInstance)
      (l : WorkerInstanceList) (r : WorkerRegistry D) (a : ℕ) (w : Worker D)
      → All (Other uid) before
      → l.worker_list ≡ before ++ entry uid ids ∷ after
      → Perm (acks ++ last ∷ []) ids
      → get_worker_from_uid uid r ≡ some a
      → find_worker a r.current_worker_list ≡ some w
      → (left : List String) × (acknowledge uid acks l r
          ≡ done (record l { worker_list = before ++ entry uid left ∷ after }, r))
        × (update_worker uid last (record l { worker_list = before ++ entry uid left ∷ after }) r
            ≡ done (
              record l { worker_list = before ++ after },
              record r {
                current_worker_list = put_worker a (set_worker_ready w) r.current_worker_list;
              },
            ))
  unfolding update_worker
  acknowledge-ready uid last acks ids before after l r a w h e p g f =
      let q =
        erase_template-inv last [] (left_over acks ids) (left_over-perm acks (last ∷ []) ids p) in
      (
        left_over acks ids,
        acknowledge-partial uid last acks [] ids before after l r h e p,
        ground (
          arith,
          update_entries-settled uid last (left_over acks ids) before after r a w h
              (perm-empty (erase_template last (left_over acks ids)) q) g f,
        ),
      )
