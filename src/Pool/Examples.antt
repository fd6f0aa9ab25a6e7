-- ===== src/Pool/Examples.antt =====
-- A pool of numbered tasks.
use server_unit.Base.{ℕ, ◌≡◌, some, List, [], ◌∷◌, done}
use server_unit.Task.{high_priority, low_priority}
use server_unit.Pool.{TaskPoolNode}
use server_unit.Pool.Queue.{Call, add, pop, of_queue, run, run_queue, run-of_queue}

abbrev calls : List (Call ℕ)
calls = add 5 low_priority ∷ pop ∷ add 6 high_priority ∷ pop ∷ pop ∷ pop ∷ add 7 low_priority ∷ []

abbrev one_task : List (TaskPoolNode ℕ)
one_task = record { task_item = some 4; task_type = low_priority } ∷ []

run-of_queue_example :
    run (of_queue one_task) calls
    ≡ done (of_queue (run_queue one_task calls).0, (run_queue one_task calls).1)
run-of_queue_example = run-of_queue one_task calls
