-- ===== src/Timeout/Strikes.antt =====
-- The two strikes of a late worker.
use server_unit.Base.{ℕ, ◌≡◌, true, false, List, [], ◌∷◌, ◌++◌, arith, contains}
use server_unit.Timeout.{Timeout, erase_first, is_worker_registered}

erase_first-append :
    (a : ℕ) (xs : List ℕ) → contains a xs ≡ false → erase_first a (xs ++ a ∷ []) ≡ xs
unfolding erase_first
erase_first-append a [] h = ground arith
erase_first-append a (x ∷ xs) h = ground (arith, erase_first-append a xs)

contains-append_self : (a : ℕ) (xs : List ℕ) → contains a (xs ++ a ∷ []) ≡ true
contains-append_self a [] = ground arith
contains-append_self a (x ∷ xs) = ground (arith, contains-append_self a xs)

-- Of a worker with no strike, the first late check gives false, the second true, and after both
-- the record of late workers is as before: the worker has no strike again.
pub is_worker_registered-twice :
    (worker : ℕ) (t : Timeout)
    → contains worker t.timedout_worker_registry ≡ false
    → ((is_worker_registered worker t).0 ≡ false)
      × (is_worker_registered worker (is_worker_registered worker t).1 ≡ (true, t))
unfolding is_worker_registered
is_worker_registered-twice worker t h = (
  ground arith,
  ground (
    arith,
    erase_first-append worker t.timedout_worker_registry h,
    contains-append_self worker t.timedout_worker_registry,
  ),
)
