-- ===== src/Sink/Order.antt =====
-- Where a push puts an item, and what a pop takes.
use mathlib.Core.List.{Perm, perm_append_singleton}
use mathlib.Core.List.Perm
use server_unit.Base.{
  ℕ, zero, suc, ◌≤◌, ◌<◌, ◌≡◌, refl, ap, Option, none, some, List, [], ◌∷◌, ◌++◌, arith, length,
  ◌⊎◌, inl, inr, append_assoc, length-append, All, insert_at, done,
}
use server_unit.Base.Int.{pos}
use server_unit.Task.{TaskPriority}
use server_unit.Sink.{
  Sink, SinkItem, push_object, place, first_below, new_item, calculate_starve_counter,
}

module _ {ℓ} {A : Type ℓ} where
  insert_at-perm : (i : ℕ) (x : A) (ys : List A) → Perm (insert_at i x ys) (x ∷ ys)
  insert_at-perm zero x ys = Perm.rfl
  insert_at-perm (suc i) x [] = Perm.rfl
  insert_at-perm (suc i) x (y ∷ ys) =
      Perm.trans (Perm.cons y (insert_at-perm i x ys)) (Perm.swap x y ys)

  insert_at-append :
      (x y : A) (xs ys : List A) → insert_at (length xs) x (xs ++ y ∷ ys) ≡ xs ++ x ∷ y ∷ ys
  insert_at-append x y [] ys = refl
  insert_at-append x y (z ∷ xs) ys = ap (◌∷◌ z) (insert_at-append x y xs ys)

module _ {ℓ} {A : Type ℓ} where
  -- The counters in the list that a push with counter `c` does not stop at.
  abbrev pub AtLeast : ℕ → SinkItem A → Type 0
  AtLeast c x = c ≤ x.starve_counter

  place-perm :
      (o : Option ℕ) (x : SinkItem A) (xs : List (SinkItem A)) → Perm (place o x xs) (x ∷ xs)
  unfolding place
  place-perm none x xs = perm_append_singleton x xs
  place-perm (some zero) x xs = perm_append_singleton x xs
  place-perm (some (suc i)) x xs = insert_at-perm i x xs

  first_below-none : (c : ℕ) (xs : List (SinkItem A)) → All (AtLeast c) xs → first_below c xs ≡ none
  unfolding first_below
  first_below-none c [] h = refl
  first_below-none c (x ∷ xs) h = ground (arith, first_below-none c xs h.1)

  first_below-found :
      (c : ℕ) (xs ys : List (SinkItem A)) (y : SinkItem A)
      → All (AtLeast c) xs
      → y.starve_counter < c
      → first_below c (xs ++ y ∷ ys) ≡ some (length xs)
  unfolding first_below
  first_below-found c [] ys y h l = ground arith
  first_below-found c (x ∷ xs) ys y h l = ground (arith, first_below-found c xs ys y h.1 l)

  -- The first counter of the list is below `c`.
  abbrev pub StartsBelow : ℕ → List (SinkItem A) → Type 0
  StartsBelow c [] = ⊥
  StartsBelow c (x ∷ xs) = x.starve_counter < c

  first_below-head : (c : ℕ) (xs : List (SinkItem A)) → StartsBelow c xs → first_below c xs ≡ some 0
  unfolding first_below
  first_below-head c [] h = absurd h
  first_below-head c (x ∷ xs) h = ground arith

  -- The sink takes pushes: its lock is free and it is below the pool size.
  pub record HasRoom (s : Sink A) : Type 0 where
    pub free : s.sink_lock ≡ 1
    pub below : length s.sink_item_list < 20

  module _ (s : Sink A) (a : A) (p : TaskPriority) (junk : ℕ) (room : HasRoom s) where
    -- A push onto a sink with room returns 0 and keeps all items, with the new one among them.
    pub push_object-perm :
        (items : List (SinkItem A)) × (push_object s (some a) p junk
          ≡ done (pos 0, record s { sink_item_list = items }))
        × Perm items (new_item a p junk ∷ s.sink_item_list)
    unfolding push_object
    push_object-perm = (
      place (first_below (calculate_starve_counter p) s.sink_item_list) (new_item a p junk)
          s.sink_item_list,
      ground arith,
      place-perm (first_below (calculate_starve_counter p) s.sink_item_list) (new_item a p junk)
          s.sink_item_list,
    )

    -- If every counter in the list is at least the one of the new priority, or the very first one
    -- is below it, the new item goes to the end of the list.
    pub push_object_appends :
        All (AtLeast (calculate_starve_counter p)) s.sink_item_list
          ⊎ StartsBelow (calculate_starve_counter p) s.sink_item_list
        → push_object s (some a) p junk
          ≡ done (pos 0, record s { sink_item_list = s.sink_item_list ++ new_item a p junk ∷ [] })
    unfolding push_object place
    push_object_appends (inl h) =
        ground (arith, first_below-none (calculate_starve_counter p) s.sink_item_list h)
    push_object_appends (inr h) =
        ground (arith, first_below-head (calculate_starve_counter p) s.sink_item_list h)

    -- If the first counter below that of the new priority stands at `z`, behind `y`, the new item
    -- goes in front of `y`, whose counter is not below it.
    pub push_object_overtakes :
        (xs zs : List (SinkItem A)) (y z : SinkItem A)
        → s.sink_item_list ≡ xs ++ y ∷ z ∷ zs
        → All (AtLeast (calculate_starve_counter p)) (xs ++ y ∷ [])
        → z.starve_counter < calculate_starve_counter p
        → push_object s (some a) p junk
          ≡ done (pos 0, record s { sink_item_list = xs ++ new_item a p junk ∷ y ∷ z ∷ zs })
    unfolding push_object place
    push_object_overtakes xs zs y z e h l = ground (
      arith,
      ap (first_below (calculate_starve_counter p)) e,
      ap (insert_at (length xs) (new_item a p junk)) e,
      insert_at-append (new_item a p junk) y xs (z ∷ zs),
      append_assoc xs (y ∷ []) (z ∷ zs),
      length-append xs (y ∷ []),
      first_below-found (calculate_starve_counter p) (xs ++ y ∷ []) zs z h l,
    )
