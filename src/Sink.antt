-- ===== src/Sink.antt =====
-- sink/sink_stack.cpp and sink/sink_stack.hpp: the bounded priority list between two stages.
-- A `void *` is an `Option`, none for NULL. The list is libstdc++'s circular one: `--begin()` is
-- `end()`. The member `starveCounter` is not initialised (the constructor assigns its parameter),
-- so a new item holds what the memory held, the argument `junk` of `push_object`.
pub mod Capacity
pub mod Order
pub mod Fifo
mod Examples
use mathlib.Core.Option
use server_unit.Base.{
  ℕ, zero, suc, ◌≡◌, Bool, Option, none, some, List, [], ◌∷◌, ◌++◌, length, insert_at, ltb, leb,
  ◌==◌, if◌then◌else◌, Outcome, done, fault, ◌>>=◌, sem_wait, sem_post,
}
use server_unit.Base.Int.{ℤ, pos, negsuc}
use server_unit.Task.{TaskPriority, non_preemtable, high_priority, medium_priority, low_priority}

abbrev pub max_pool_size : ℕ
max_pool_size = 20

unfoldable pub calculate_starve_counter : TaskPriority → ℕ
calculate_starve_counter high_priority = 6
calculate_starve_counter medium_priority = 4
calculate_starve_counter _ = 0

module _ {ℓ} (A : Type ℓ) where
  pub record ExportSinkItem : Type ℓ where
    pub data_object : Option A
    pub task_priority : TaskPriority

  pub record SinkItem : Type ℓ where
    pub sink_item : ExportSinkItem
    pub starve_counter : ℕ

  pub record Sink : Type ℓ where
    pub sink_item_list : List SinkItem
    pub sink_lock : ℕ
    pub sink_limit : ℕ

module _ {ℓ} {A : Type ℓ} where
  -- `Sink::Sink(maxSinkSize, debugPrefix)`.
  unfoldable pub new_sink : ℕ → Sink A
  new_sink max_size = record { sink_item_list = []; sink_lock = 1; sink_limit = max_size }

  -- `new SinkItem(object, starveCounter, taskPriority)` on memory that holds `junk`.
  abbrev pub new_item : A → TaskPriority → ℕ → SinkItem A
  new_item object priority junk = record {
    sink_item = record { data_object = some object; task_priority = priority };
    starve_counter = junk;
  }

  -- The index at which the loop finds an item with a counter below `limit`.
  unfoldable pub first_below : ℕ → List (SinkItem A) → Option ℕ
  first_below limit [] = none
  first_below limit (x ∷ xs) =
      if ltb x.starve_counter limit then some 0 else Option.map suc (first_below limit xs)

  -- `insert(--i, …)`: in front of the item before the found one. At the first, `--i` is `end()`.
  unfoldable pub place : Option ℕ → SinkItem A → List (SinkItem A) → List (SinkItem A)
  place none x items = items ++ x ∷ []
  place (some zero) x items = items ++ x ∷ []
  place (some (suc i)) x items = insert_at i x items

  unfoldable pub push_object : Sink A → Option A → TaskPriority → ℕ → Outcome (ℤ × Sink A)
  push_object s none priority junk = done (negsuc 0, s)
  push_object s (some object) priority junk =
      if leb max_pool_size (length s.sink_item_list) then done (negsuc 0, s) else do
        lock ← sem_wait s.sink_lock
        let counter = calculate_starve_counter priority
        let items = s.sink_item_list
        let items' = place (first_below counter items) (new_item object priority junk) items
        done (pos 0, record s { sink_item_list = items'; sink_lock = sem_post lock })

  -- The default `ExportSinkItem` leaves its priority as the memory had it, `junk`.
  unfoldable pub pop_object : Sink A → TaskPriority → Outcome (ExportSinkItem A × Sink A)
  pop_object s junk = elim s.sink_item_list [
    | [] ↦ done (record { data_object = none; task_priority = junk }, s)
    | x ∷ rest ↦ do
      lock ← sem_wait s.sink_lock
      done (x.sink_item, record s { sink_item_list = rest; sink_lock = sem_post lock })
  ]

  unfoldable pub get_current_sink_space : Sink A → ℕ
  get_current_sink_space s = length s.sink_item_list

  unfoldable pub is_sink_full : Sink A → Bool
  is_sink_full s = ltb s.sink_limit (length s.sink_item_list)

  unfoldable pub is_sink_empty : Sink A → Bool
  is_sink_empty s = length s.sink_item_list == 0

  -- `front()` of an empty list is undefined.
  unfoldable pub get_top_task_priority : Sink A → Outcome TaskPriority
  get_top_task_priority s = elim s.sink_item_list [
    | [] ↦ fault
    | x ∷ _ ↦ done x.sink_item.task_priority
  ]
