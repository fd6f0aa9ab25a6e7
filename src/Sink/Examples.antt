-- ===== src/Sink/Examples.antt =====
-- Sinks with concrete items.

use server_unit.Base.{ℕ, ◌≡◌, refl, false, none, some, List, [], ◌∷◌, arith, done, Returns}
use server_unit.Task.{high_priority, medium_priority, low_priority}
use server_unit.Sink.{new_sink, is_sink_full}
use server_unit.Sink.Capacity.{Call, push, pop, IsValid, run, run-never_full}
use server_unit.Sink.Fifo.{of_queue, serve, run_queue, serve-of_queue}

abbrev calls : List (Call ℕ)
calls =
    push (some 1) low_priority 0
    ∷ push none high_priority 3
    ∷ push (some 2) high_priority 9
    ∷ pop low_priority
    ∷ []

run-never_full_example :
    Returns (λ s. IsValid s × (is_sink_full s ≡ false)) (run (new_sink 30) calls)
run-never_full_example = run-never_full 30 calls (omega arith)

abbrev zeroed : List (Call ℕ)
zeroed =
    push (some 1) low_priority 0
    ∷ push (some 2) high_priority 0
    ∷ push (some 3) medium_priority 0
    ∷ pop low_priority
    ∷ pop low_priority
    ∷ []

serve-of_queue_example :
    serve (of_queue 20 []) zeroed
    ≡ done (of_queue 20 (run_queue [] zeroed).0, (run_queue [] zeroed).1)
serve-of_queue_example = serve-of_queue 20 [] zeroed (refl, (refl, (refl, (tt, (tt, tt)))))
