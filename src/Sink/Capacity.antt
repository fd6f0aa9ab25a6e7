-- ===== src/Sink/Capacity.antt =====
-- How full a sink can get.
use server_unit.Base.{
  ℕ, zero, suc, ◌≤◌, ◌≡◌, refl, ◌∙◌, Returns, Returns-bind, Returns-weaken, ◌>>=◌, false, Option,
  none, some, List, [], ◌∷◌, arith, length, length-append, insert_at, Outcome, done,
}
use server_unit.Task.{TaskPriority}
use server_unit.Sink.{
  Sink, SinkItem, new_sink, push_object, pop_object, is_sink_full, place, first_below, new_item,
  calculate_starve_counter,
}

-- The calls that change a sink; each names what the memory held.
pub data Call {ℓ} (A : Type ℓ) : Type ℓ where
  push : Option A → TaskPriority → ℕ → Call A
  pop : TaskPriority → Call A

length-insert_at {ℓ} :
    {B : Type ℓ} (i : ℕ) (x : B) (ys : List B) → length (insert_at i x ys) ≡ suc (length ys)
length-insert_at zero x ys = refl
length-insert_at (suc i) x [] = refl
length-insert_at (suc i) x (y ∷ ys) = omega (arith, length-insert_at i x ys)

module _ {ℓ} {A : Type ℓ} where
  -- The lock is free, and the list is within the pool size.
  pub record IsValid (s : Sink A) : Type 0 where
    pub free : s.sink_lock ≡ 1
    pub within : length s.sink_item_list ≤ 20

  length-place :
      (o : Option ℕ) (x : SinkItem A) (xs : List (SinkItem A))
      → length (place o x xs) ≡ suc (length xs)
  unfolding place
  length-place none x xs = omega (arith, length-append xs (x ∷ []))
  length-place (some zero) x xs = omega (arith, length-append xs (x ∷ []))
  length-place (some (suc i)) x xs = length-insert_at i x xs

  -- A push returns, refuses exactly NULL and a full list, and adds one item otherwise.
  pub push_object-Returns :
      (s : Sink A) (o : Option A) (priority : TaskPriority) (junk : ℕ)
      → IsValid s
      → Returns (λ r. IsValid r.1 × (r.1.sink_limit ≡ s.sink_limit)) (push_object s o priority junk)
  unfolding push_object
  push_object-Returns s none priority junk v = (v, refl)
  push_object-Returns s (some a) priority junk v = ground (
    arith,
    length-place (first_below (calculate_starve_counter priority) s.sink_item_list)
        (new_item a priority junk) s.sink_item_list,
  )

  pub pop_object-Returns :
      (s : Sink A) (junk : TaskPriority)
      → IsValid s
      → Returns (λ r. IsValid r.1 × (r.1.sink_limit ≡ s.sink_limit)) (pop_object s junk)
  unfolding pop_object
  pop_object-Returns s junk v = ground arith

  unfoldable pub step : Sink A → Call A → Outcome (Sink A)
  step s (push o priority junk) = do r ← push_object s o priority junk; done r.1
  step s (pop junk) = do r ← pop_object s junk; done r.1

  unfoldable pub run : Sink A → List (Call A) → Outcome (Sink A)
  run s [] = done s
  run s (c ∷ cs) = do s' ← step s c; run s' cs

  abbrev Keeps : Sink A → Sink A → Type 0
  Keeps s t = IsValid t × (t.sink_limit ≡ s.sink_limit)

  step-Returns : (s : Sink A) (c : Call A) → IsValid s → Returns (Keeps s) (step s c)
  unfolding step
  step-Returns s (push o priority junk) v =
      Returns-bind (λ r. Keeps s r.1) (Keeps s) (push_object s o priority junk) _
        (push_object-Returns s o priority junk v) (λ r h. h)
  step-Returns s (pop junk) v =
      Returns-bind (λ r. Keeps s r.1) (Keeps s) (pop_object s junk) _ (pop_object-Returns s junk v)
        (λ r h. h)

  run-Returns : (s : Sink A) (cs : List (Call A)) → IsValid s → Returns (Keeps s) (run s cs)
  unfolding run
  run-Returns s [] v = (v, refl)
  run-Returns s (c ∷ cs) v =
      Returns-bind (Keeps s) (Keeps s) (step s c) (λ t. run t cs) (step-Returns s c v)
        λ t k.
          Returns-weaken (Keeps t) (Keeps s) (run t cs) (run-Returns t cs k.0)
            (λ u k'. (k'.0, k'.1 ∙ k.1))

-- Any sequence of pushes and pops on a new sink returns, with the lock free and at most 20 items.
-- So `isSinkFull` is false throughout, if the sink was made with a limit of 20 or more.
pub run-never_full {ℓ} :
    {A : Type ℓ} (limit : ℕ) (cs : List (Call A))
    → 20 ≤ limit
    → Returns (λ s. IsValid s × (is_sink_full s ≡ false)) (run (new_sink limit) cs)
unfolding new_sink is_sink_full
run-never_full limit cs h =
    Returns-weaken (Keeps (new_sink limit)) _ (run (new_sink limit) cs)
      (run-Returns (new_sink limit) cs (record { free = refl; within = omega arith }))
      (λ s k. ground arith)
