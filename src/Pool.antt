-- ===== src/Pool.antt =====
-- sched/task_pool.cpp and sched/task_pool.hpp: the linked list of tasks that wait for a thread.
-- The chain of nodes from `headNode` is a list; the count is a member of its own.
use server_unit.Base.{
  ℕ, zero, suc, ◌-◌, ◌+◌, Option, none, some, List, [], ◌∷◌, leb, ◌==◌, if◌then◌else◌, Outcome,
  done, fault, ◌>>=◌, sem_wait, sem_post,
}
use server_unit.Base.Int.{ℤ, pos, negsuc}
use server_unit.Task.{TaskPriority, low_priority}
pub mod Queue
mod Examples

abbrev pub max_task_pool_size : ℕ
max_task_pool_size = 20

module _ {ℓ} (T : Type ℓ) where
  -- `taskPoolNode`; `next` is the rest of the list.
  pub record TaskPoolNode : Type ℓ where
    pub task_item : Option T
    pub task_type : TaskPriority

  pub record TaskPool : Type ℓ where
    pub task_pool_lock : ℕ
    pub head_node : List TaskPoolNode
    pub task_pool_count : ℕ

module _ {ℓ} {T : Type ℓ} where
  unfoldable pub new_task_pool : TaskPool T
  new_task_pool = record { task_pool_lock = 1; head_node = []; task_pool_count = 0 }

  -- The node that the default constructor makes.
  abbrev pub empty_node : TaskPoolNode T
  empty_node = record { task_item = none; task_type = low_priority }

  -- An empty chain gets its first node; else the loop walks to the node with no `next`.
  unfoldable pub link_tail : TaskPoolNode T → List (TaskPoolNode T) → List (TaskPoolNode T)
  link_tail tail [] = tail ∷ []
  link_tail tail (node ∷ next) = node ∷ link_tail tail next

  unfoldable pub add_task : TaskPool T → T → TaskPriority → Outcome (ℤ × TaskPool T)
  add_task p task load_type =
      if leb max_task_pool_size p.task_pool_count then done (negsuc 0, p) else do
        lock ← sem_wait p.task_pool_lock
        let node : TaskPoolNode T = record { task_item = some task; task_type = load_type }
        done (
          pos 0,
          record p {
            head_node = link_tail node p.head_node;
            task_pool_count = p.task_pool_count + 1;
            task_pool_lock = sem_post lock;
          },
        )

  -- `temp->next` at a null `headNode` is undefined.
  unfoldable pub pop_task : TaskPool T → Outcome (TaskPoolNode T × TaskPool T)
  pop_task p = if p.task_pool_count == 0 then done (empty_node, p) else do
    lock ← sem_wait p.task_pool_lock
    elim p.head_node [
      | [] ↦ fault
      | temp ∷ next ↦ done (
        temp,
        record p {
          head_node = next;
          task_pool_count = p.task_pool_count - 1;
          task_pool_lock = sem_post lock;
        },
      )
    ]

  unfoldable pub get_task_pool_size : TaskPool T → ℕ
  get_task_pool_size p = p.task_pool_count
