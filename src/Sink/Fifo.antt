-- ===== src/Sink/Fifo.antt =====
-- The sink on memory that holds zeros, as a fresh page of the operating system does.
use mathlib.Core.List.{map-append}
use server_unit.Base.{
  ℕ, zero, suc, ◌≡◌, refl, none, some, List, [], ◌∷◌, ◌++◌, map, arith, length, All, ltb,
  if◌then◌else◌, Outcome, done, ◌>>=◌,
}
use server_unit.Task.{TaskPriority}
use server_unit.Sink.{
  Sink, SinkItem, ExportSinkItem, push_object, pop_object, place, first_below,
  calculate_starve_counter,
}
use server_unit.Sink.Capacity.{Call, push, pop}

module _ {ℓ} {A : Type ℓ} where
  -- The memory that the call finds is zero.
  abbrev pub IsZeroed : Call A → Type 0
  IsZeroed (push o priority junk) = junk ≡ 0
  IsZeroed (pop junk) = Unit

  -- The item with the counter that zeroed memory gives it.
  abbrev pub stale : ExportSinkItem A → SinkItem A
  stale x = record { sink_item = x; starve_counter = 0 }

  -- The sink that holds the queue.
  abbrev pub of_queue : ℕ → List (ExportSinkItem A) → Sink A
  of_queue limit q = record { sink_item_list = map stale q; sink_lock = 1; sink_limit = limit }

  abbrev pub item : A → TaskPriority → ExportSinkItem A
  item a priority = record { data_object = some a; task_priority = priority }

  -- A first-in first-out queue that refuses NULL and a twenty-first item, after a call, and the
  -- items that the call hands out.
  pub step_queue :
      List (ExportSinkItem A) → Call A → List (ExportSinkItem A) × List (ExportSinkItem A)
  step_queue q (push none priority junk) = (q, [])
  step_queue q (push (some a) priority junk) =
      (if ltb (length q) 20 then q ++ item a priority ∷ [] else q, [])
  step_queue [] (pop junk) = ([], record { data_object = none; task_priority = junk } ∷ [])
  step_queue (x ∷ q) (pop junk) = (q, x ∷ [])

  pub run_queue :
      List (ExportSinkItem A) → List (Call A) → List (ExportSinkItem A) × List (ExportSinkItem A)
  run_queue q [] = (q, [])
  run_queue q (c ∷ cs) =
      let r = step_queue q c in let rest = run_queue r.0 cs in (rest.0, r.1 ++ rest.1)

  unfoldable pub serve_one : Sink A → Call A → Outcome (Sink A × List (ExportSinkItem A))
  serve_one s (push o priority junk) = do r ← push_object s o priority junk; done (r.1, [])
  serve_one s (pop junk) = do r ← pop_object s junk; done (r.1, r.0 ∷ [])

  unfoldable pub serve : Sink A → List (Call A) → Outcome (Sink A × List (ExportSinkItem A))
  serve s [] = done (s, [])
  serve s (c ∷ cs) = do r ← serve_one s c; rest ← serve r.0 cs; done (rest.0, r.1 ++ rest.1)

  length-map : (q : List (ExportSinkItem A)) → length (map stale q) ≡ length q
  length-map [] = refl
  length-map (x ∷ q) = omega (arith, length-map q)

  first_below-zero : (xs : List (SinkItem A)) → first_below 0 xs ≡ none
  unfolding first_below
  first_below-zero [] = refl
  first_below-zero (x ∷ xs) = ground (arith, first_below-zero xs)

  place-stale :
      (c : ℕ) (x : ExportSinkItem A) (q : List (ExportSinkItem A))
      → place (first_below c (map stale q)) (stale x) (map stale q) ≡ map stale (q ++ x ∷ [])
  unfolding place first_below
  place-stale c x [] = refl
  place-stale zero x (y ∷ q) =
      ground (arith, first_below-zero (map stale q), map-append stale (y ∷ q) (x ∷ []))
  place-stale (suc c) x (y ∷ q) = ground (arith, map-append stale (y ∷ q) (x ∷ []))

  serve_one-of_queue :
      (limit : ℕ) (q : List (ExportSinkItem A)) (c : Call A)
      → IsZeroed c
      → serve_one (of_queue limit q) c
        ≡ done (of_queue limit (step_queue q c).0, (step_queue q c).1)
  unfolding serve_one step_queue push_object pop_object
  serve_one-of_queue limit q (push none priority junk) z = refl
  serve_one-of_queue limit q (push (some a) priority junk) z =
      ground
        (arith, length-map q, place-stale (calculate_starve_counter priority) (item a priority) q)
  serve_one-of_queue limit [] (pop junk) z = refl
  serve_one-of_queue limit (x ∷ q) (pop junk) z = refl

  -- If the memory that new items get holds zeros, the counters and priorities change nothing: any
  -- sequence of pushes and pops returns, hands out what a first-in first-out queue hands out that
  -- refuses NULL and a twenty-first item, and leaves the sink that holds that queue.
  pub serve-of_queue :
      (limit : ℕ) (q : List (ExportSinkItem A)) (cs : List (Call A))
      → All IsZeroed cs
      → serve (of_queue limit q) cs ≡ done (of_queue limit (run_queue q cs).0, (run_queue q cs).1)
  unfolding serve run_queue
  serve-of_queue limit q [] z = refl
  serve-of_queue limit q (c ∷ cs) z =
      rw (serve_one-of_queue limit q c z.0)
        (rw (serve-of_queue limit (step_queue q c).0 cs z.1) refl)
