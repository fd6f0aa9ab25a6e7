-- ===== src/Timeout.antt =====
-- sched/timeout.hpp and sched/timeout.cpp: the packets that wait for an acknowledgement and the
-- workers that were late once. Workers and packets are addresses.
pub mod Strikes
use server_unit.Base.{
  ℕ, Bool, true, false, List, [], ◌∷◌, ◌++◌, contains, remove_all, ◌==◌, if◌then◌else◌, Outcome,
  done, ◌>>=◌, sem_wait, sem_post,
}

pub record Timeout : Type 0 where
  pub timedout_worker_registry : List ℕ
  pub timed_packets : List ℕ
  pub timeout_list_lock : ℕ

unfoldable pub new_timeout : Timeout
new_timeout = record { timedout_worker_registry = []; timed_packets = []; timeout_list_lock = 1 }

-- `erase(i--)` of the entry that the loop finds first.
unfoldable pub erase_first : ℕ → List ℕ → List ℕ
erase_first a [] = []
erase_first a (x ∷ xs) = if x == a then xs else x ∷ erase_first a xs

-- The second strike of a worker is true and clears its entry; the first is false and makes one.
unfoldable pub is_worker_registered : ℕ → Timeout → Bool × Timeout
is_worker_registered worker t =
    if contains worker t.timedout_worker_registry
    then (
      true,
      record t { timedout_worker_registry = erase_first worker t.timedout_worker_registry },
    )
    else (false, record t { timedout_worker_registry = t.timedout_worker_registry ++ worker ∷ [] })

unfoldable pub add_packet : ℕ → Timeout → Outcome Timeout
add_packet packet t = do
  lock ← sem_wait t.timeout_list_lock
  done (record t {
    timed_packets = t.timed_packets ++ packet ∷ [];
    timeout_list_lock = sem_post lock;
  })

unfoldable pub pop_packet : ℕ → Timeout → Outcome Timeout
pop_packet packet t = do
  lock ← sem_wait t.timeout_list_lock
  done (record t {
    timed_packets = remove_all packet t.timed_packets;
    timeout_list_lock = sem_post lock;
  })
