-- ===== src/Sender/Best.antt =====
-- Which worker `findIdealWorker` finds.

use server_unit.Base.{
  ◌≡◌, ◌⊎◌, ◌∙◌, refl, true, false, ◌&&◌, Option, none, some, List, [], ◌∷◌, arith, All,
  if◌then◌else◌, done, Returns, Returns-bind, Returns-weaken, Returns-of_eq, Bool-cases, inl, inr,
}
use server_unit.Base.Int.{ℤ, pos, negsuc, gtb_ℤ}
use server_unit.Task.{TaskPriority}
use server_unit.Double.{DoubleLib}
use server_unit.Registry.{Entry}
use server_unit.Sender.Ideal.{
  Best, worker_points, is_candidate, replaces, best_of, consider_worker, best_worker,
}

gtb_ℤ-trans : (a b c : ℤ) → gtb_ℤ a b ≡ false → gtb_ℤ b c ≡ false → gtb_ℤ a c ≡ false
gtb_ℤ-trans (pos a) (pos b) (pos c) h k = ground arith
gtb_ℤ-trans (pos a) (pos b) (negsuc c) h k = ground arith
gtb_ℤ-trans (pos a) (negsuc b) c h k = ground arith
gtb_ℤ-trans (negsuc a) (pos b) (pos c) h k = ground arith
gtb_ℤ-trans (negsuc a) (pos b) (negsuc c) h k = ground arith
gtb_ℤ-trans (negsuc a) (negsuc b) (pos c) h k = ground arith
gtb_ℤ-trans (negsuc a) (negsuc b) (negsuc c) h k = ground arith

gtb_ℤ-asymm : (a b : ℤ) → gtb_ℤ a b ≡ true → gtb_ℤ b a ≡ false
gtb_ℤ-asymm (pos a) (pos b) h = ground arith
gtb_ℤ-asymm (pos a) (negsuc b) h = ground arith
gtb_ℤ-asymm (negsuc a) (pos b) h = ground arith
gtb_ℤ-asymm (negsuc a) (negsuc b) h = ground arith

gtb_ℤ-irrefl : (a : ℤ) → gtb_ℤ a a ≡ false
gtb_ℤ-irrefl (pos a) = ground arith
gtb_ℤ-irrefl (negsuc a) = ground arith

module _ (F : DoubleLib) where
  open F use {Double, leq, eq, is_nan, leq_total, leq_trans, eq_lem}

  -- `a` has no more points than `b`, and with as many points no greater queue size.
  abbrev pub AtMost : Best F → Best F → Type 0
  AtMost a b =
      (leq a.points b.points ≡ true)
      × ((eq b.points a.points && gtb_ℤ a.queue_size b.queue_size) ≡ false)

  -- The points are a number.
  abbrev IsNumber : Best F → Type 0
  IsNumber b = is_nan b.points ≡ false

  AtMost-refl : (a : Best F) → IsNumber a → AtMost a a
  AtMost-refl a na = ground (arith, leq_total a.points a.points na na, gtb_ℤ-irrefl a.queue_size)

  AtMost-trans : (a b c : Best F) → AtMost a b → AtMost b c → AtMost a c
  AtMost-trans a b c h k = ground (
    arith,
    leq_trans a.points b.points c.points h.0 k.0,
    leq_trans c.points a.points b.points,
    leq_trans b.points c.points a.points k.0,
    eq_lem c.points a.points,
    eq_lem b.points a.points,
    eq_lem c.points b.points,
    gtb_ℤ-trans a.queue_size b.queue_size c.queue_size,
  )

  replaces-AtMost : (b n : Best F) → replaces F (some b) n ≡ true → AtMost n b
  unfolding replaces
  replaces-AtMost b n h = ground (arith, eq_lem n.points b.points, eq_lem b.points n.points)

  kept-AtMost :
      (b n : Best F) → IsNumber b → IsNumber n → replaces F (some b) n ≡ false → AtMost b n
  unfolding replaces
  kept-AtMost b n nb nn h = ground (
    arith,
    eq_lem n.points b.points,
    leq_total n.points b.points nn nb,
    gtb_ℤ-asymm n.queue_size b.queue_size,
  )

  -- The worker of the entry is not a candidate, or `b` is at most it.
  abbrev pub Beaten : TaskPriority → Best F → Entry Double → Type 0
  Beaten priority b e =
      (is_candidate F e.worker ≡ false)
      ⊎ ((p : Double) × (worker_points F priority e.worker.worker_stats ≡ done p)
          × AtMost b (best_of F e.worker p))

  -- The points of the worker can be computed, if they are, and are not NaN: its statistics cover the
  -- priority.
  abbrev pub HasPoints : TaskPriority → Entry Double → Type 0
  HasPoints priority e =
      (is_candidate F e.worker ≡ false)
      ⊎ ((p : Double) × (worker_points F priority e.worker.worker_stats ≡ done p)
          × (is_nan p ≡ false))

  -- `b` is made from a candidate in the list.
  abbrev pub IsFrom : TaskPriority → List (Entry Double) → Best F → Type 0
  IsFrom priority [] b = ⊥
  IsFrom priority (e ∷ es) b =
      ((is_candidate F e.worker ≡ true)
        × (p : Double) × (worker_points F priority e.worker.worker_stats ≡ done p)
        × (b ≡ best_of F e.worker p))
      ⊎ IsFrom priority es b

  -- What a loop over `es` that starts at `best` ends at.
  abbrev Chosen : TaskPriority → List (Entry Double) → Option (Best F) → Option (Best F) → Type 0
  Chosen priority es best none = (best ≡ none) × All (λ e. is_candidate F e.worker ≡ false) es
  Chosen priority es none (some b) = All (Beaten priority b) es × IsFrom priority es b × IsNumber b
  Chosen priority es (some a) (some b) =
      All (Beaten priority b) es × ((b ≡ a) ⊎ IsFrom priority es b) × AtMost b a × IsNumber b

  abbrev BestIsNumber : Option (Best F) → Type 0
  BestIsNumber none = Unit
  BestIsNumber (some b) = IsNumber b

  consider_worker_skips :
      (priority : TaskPriority) (e : Entry Double) (best : Option (Best F))
      → is_candidate F e.worker ≡ false
      → BestIsNumber best
      → Returns (Chosen priority (e ∷ []) best) (consider_worker F priority best e.worker)
  unfolding consider_worker
  consider_worker_skips priority e none c nb = rw (c, consider_worker) (refl, (c, tt))
  consider_worker_skips priority e (some a) c nb =
      rw (c, consider_worker) ((inl c, tt), inl refl, AtMost-refl a nb, nb)

  judged-Chosen :
      (priority : TaskPriority) (e : Entry Double) (best : Option (Best F)) (p : Double)
      → is_candidate F e.worker ≡ true
      → worker_points F priority e.worker.worker_stats ≡ done p
      → is_nan p ≡ false
      → BestIsNumber best
      → Chosen priority
          (e ∷ [])
          best
          (if replaces F best (best_of F e.worker p) then some (best_of F e.worker p) else best)
  unfolding replaces
  judged-Chosen priority e none p c j np nb =
      let n : Best F = best_of F e.worker p in
      ((inr (p, j, AtMost-refl n np), tt), inl (c, p, j, refl), np)
  judged-Chosen priority e (some a) p c j np nb =
      let n : Best F = best_of F e.worker p in
      elim (Bool-cases (replaces F (some a) n)) [
        | inl r ↦ rw r (
          (inr (p, j, AtMost-refl n np), tt),
          inr (inl (c, p, j, refl)),
          replaces-AtMost a n r,
          np,
        )
        | inr r ↦ rw r ((inr (p, j, kept-AtMost a n nb np r), tt), inl refl, AtMost-refl a nb, nb)
      ]

  judged-eq :
      (priority : TaskPriority) (e : Entry Double) (best : Option (Best F)) (p : Double)
      → is_candidate F e.worker ≡ true
      → worker_points F priority e.worker.worker_stats ≡ done p
      → consider_worker F priority best e.worker
        ≡ done
            (if replaces F best (best_of F e.worker p) then some (best_of F e.worker p) else best)
  unfolding consider_worker
  judged-eq priority e best p c j = rw (c, consider_worker) (rw j refl)

  consider_worker-Chosen :
      (priority : TaskPriority) (e : Entry Double) (best : Option (Best F))
      → HasPoints priority e
      → BestIsNumber best
      → Returns (Chosen priority (e ∷ []) best) (consider_worker F priority best e.worker)
  consider_worker-Chosen priority e best (inl c) nb = consider_worker_skips priority e best c nb
  consider_worker-Chosen priority e best (inr (p, j, np)) nb =
      elim (Bool-cases (is_candidate F e.worker)) [
        | inl c ↦
            Returns-of_eq _ (consider_worker F priority best e.worker)
              (judged-eq priority e best p c j) (judged-Chosen priority e best p c j np nb)
        | inr c ↦ consider_worker_skips priority e best c nb
      ]

  Beaten-trans :
      (priority : TaskPriority) (a b : Best F) (e : Entry Double)
      → AtMost a b
      → Beaten priority b e
      → Beaten priority a e
  Beaten-trans priority a b e h (inl c) = inl c
  Beaten-trans priority a b e h (inr (p, j, k)) =
      inr (p, j, AtMost-trans a b (best_of F e.worker p) h k)

  Chosen-cons :
      (priority : TaskPriority) (e : Entry Double) (es : List (Entry Double))
      (best mid r : Option (Best F))
      → Chosen priority (e ∷ []) best mid
      → Chosen priority es mid r
      → Chosen priority (e ∷ es) best r
  Chosen-cons priority e es best none none (eb, h) (em, k) = (eb, (h.0, k))
  Chosen-cons priority e es none none (some b) (eb, h) (k, from, nb) = ((inl h.0, k), inr from, nb)
  Chosen-cons priority e es (some a) none (some b) (eb, h) k = absurd (cc)
  Chosen-cons priority e es best (some m) none h (em, k) = absurd (cc)
  Chosen-cons priority e es none (some m) (some b) (h, from, _) (k, back, l, nb) =
      ((Beaten-trans priority b m e l h.0, k), join from back, nb)
    where
      join :
          IsFrom priority (e ∷ []) m → (b ≡ m) ⊎ IsFrom priority es b → IsFrom priority (e ∷ es) b
      join (inl (c, p, j, same_points)) (inl same) = inl (c, p, j, same ∙ same_points)
      join (inr none_left) (inl same) = absurd none_left
      join _ (inr f) = inr f
  Chosen-cons priority e es (some a) (some m) (some b) (h, from, l, _) (k, back, l', nb) =
      ((Beaten-trans priority b m e l' h.0, k), join from back, AtMost-trans b m a l' l, nb)
    where
      join :
          (m ≡ a) ⊎ IsFrom priority (e ∷ []) m
          → (b ≡ m) ⊎ IsFrom priority es b
          → (b ≡ a) ⊎ IsFrom priority (e ∷ es) b
      join (inl x) (inl y) = inl (y ∙ x)
      join (inr (inl (c, p, j, same_points))) (inl same) = inr (inl (c, p, j, same ∙ same_points))
      join (inr (inr none_left)) (inl same) = absurd none_left
      join _ (inr f) = inr (inr f)

  Chosen-BestIsNumber :
      (priority : TaskPriority) (es : List (Entry Double)) (best r : Option (Best F))
      → Chosen priority es best r
      → BestIsNumber r
  Chosen-BestIsNumber priority es best none h = tt
  Chosen-BestIsNumber priority es none (some b) (_, _, nb) = nb
  Chosen-BestIsNumber priority es (some a) (some b) (_, _, _, nb) = nb

  best_worker-Chosen :
      (priority : TaskPriority) (es : List (Entry Double)) (best : Option (Best F))
      → All (HasPoints priority) es
      → BestIsNumber best
      → Returns (Chosen priority es best) (best_worker F priority best es)
  unfolding best_worker
  best_worker-Chosen priority [] none h nb = (refl, tt)
  best_worker-Chosen priority [] (some a) h nb = (tt, inl refl, AtMost-refl a nb, nb)
  best_worker-Chosen priority (e ∷ es) best (p, h) nb =
      Returns-bind (Chosen priority (e ∷ []) best) (Chosen priority (e ∷ es) best)
        (consider_worker F priority best e.worker) _ (consider_worker-Chosen priority e best p nb)
        λ mid c.
          Returns-weaken (Chosen priority es mid) _ (best_worker F priority mid es)
            (best_worker-Chosen priority es mid h
              (Chosen-BestIsNumber priority (e ∷ []) best mid c))
            (λ r c'. Chosen-cons priority e es best mid r c c')

  -- If the statistics of every ready worker cover the priority and give it points that are not NaN,
  -- the search returns. With no candidate, a worker that is ready and has sent statistics, it finds
  -- none. Else it finds a candidate that no candidate has fewer points than, and no candidate with
  -- as many points has a smaller queue size. That is minus the number of its packets, queued and
  -- unacknowledged, while these are fewer than 2^31: of equal candidates it is one with most packets.
  pub best_worker-AtMost :
      (priority : TaskPriority) (es : List (Entry Double))
      → All (HasPoints priority) es
      → Returns
          (λ r.
            ((r ≡ none) × All (λ e. is_candidate F e.worker ≡ false) es)
            ⊎ ((b : Best F) × (r ≡ some b) × All (Beaten priority b) es × IsFrom priority es b))
          (best_worker F priority none es)
  best_worker-AtMost priority es h =
      Returns-weaken (Chosen priority es none) _ (best_worker F priority none es)
        (best_worker-Chosen priority es none h tt) found
    where
      found :
          (r : Option (Best F))
          → Chosen priority es none r
          → ((r ≡ none) × All (λ e. is_candidate F e.worker ≡ false) es)
            ⊎ ((b : Best F) × (r ≡ some b) × All (Beaten priority b) es × IsFrom priority es b)
      found none (_, h) = inl (refl, h)
      found (some b) (h, from, _) = inr (b, refl, h, from)
