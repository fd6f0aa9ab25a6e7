-- ===== src/Registry.antt =====
-- worker_node/worker_registry.cpp: the workers that are connected and the identifiers of those that
-- are gone. A worker object lives exactly while it is in the list, at its address.
pub mod Identity
pub mod Removal
mod Examples
use mathlib.Core.Option
use server_unit.Base.{
  ℕ, zero, suc, ◌+◌, ◌/◌, ◌%◌, Bool, true, false, Option, none, some, List, [], ◌∷◌, ◌++◌, String,
  str_eq, ltb, ◌==◌, if◌then◌else◌, map, Outcome, done, fault, ◌>>=◌,
}
use server_unit.SenderData.{add_worker}
use server_unit.Task.{Flag, init_flag, set_flag, reset_flag, is_flag_set}
use server_unit.Worker.{Worker, new_worker, shut_down}
use Prim.Native.String.{◌++◌ as join}

-- A `Worker *` and what it points to.
pub record Entry (D : Type 0) : Type 0 where
  pub address : ℕ
  pub worker : Worker D

pub record WorkerRegistry (D : Type 0) : Type 0 where
  pub current_worker_list : List (Entry D)
  pub dead_worker_list : List String
  pub new_worker_flag : Flag

-- `std::to_string` on numbers of at most `n` digits.
digit : ℕ → String
digit d =
    if d == 0
    then "0"
    else if d == 1
    then "1"
    else if d == 2
    then "2"
    else if d == 3
    then "3"
    else if d == 4
    then "4"
    else if d == 5
    then "5"
    else if d == 6
    then "6"
    else if d == 7
    then "7"
    else if d == 8
    then "8"
    else "9"

digits_of : ℕ → ℕ → String
unfolding digit
digits_of zero n = ""
digits_of (suc k) n =
    let front = digits_of k (n / 10) in if ltb n 10 then digit n else join front (digit (n % 10))

unfoldable pub to_string : ℕ → String
unfolding digits_of
to_string n = digits_of 20 n

unfoldable pub has_uid : String → List String → Bool
has_uid uid [] = false
has_uid uid (u ∷ us) = if str_eq u uid then true else has_uid uid us

module _ {D : Type 0} where
  abbrev pub uid_of : Entry D → String
  uid_of e = e.worker.worker_uid

  abbrev pub current_uids : WorkerRegistry D → List String
  current_uids r = map uid_of r.current_worker_list

  -- The body of the loop of `generateWorkerUid`: the two scans reset the flag `failed` at a match.
  unfoldable pub check_uid : WorkerRegistry D → String → Bool → Bool
  unfolding has_uid
  check_uid r uid failed =
      let failed' = if has_uid uid (current_uids r) then false else failed in
      if has_uid uid r.dead_worker_list then false else failed'

  -- The loop: `draws k` is the number that the random device gives at draw `k`, and none says that
  -- the fuel ran out. The flag `failed` starts set and ends the loop when it is still set.
  unfoldable pub draw_uid : ℕ → WorkerRegistry D → (ℕ → ℕ) → ℕ → Bool → Option String
  draw_uid zero r draws k failed = none
  draw_uid (suc fuel) r draws k failed =
      let uid = to_string (draws k) in
      let failed' = check_uid r uid failed in
      let more = draw_uid fuel r draws (k + 1) failed' in if failed' then some uid else more

  -- The worker object stands at the address `fresh`. The identifier is also added to `names`,
  -- the list of new workers of the sender core.
  unfoldable pub generate_worker_uid :
      ℕ
      → (ℕ → ℕ)
      → ℕ
      → D
      → WorkerRegistry D
      → List String
      → Option (String × WorkerRegistry D × List String)
  unfolding draw_uid
  generate_worker_uid fuel draws fresh zero_time r names =
      Option.map
        (λ uid. (
          uid,
          record r {
            current_worker_list =
                record { address = fresh; worker = new_worker zero_time uid }
                ∷ r.current_worker_list;
            new_worker_flag = set_flag r.new_worker_flag;
          },
          add_worker uid names,
        ))
        (draw_uid fuel r draws 0 true)

  -- The worker at an address; no worker there is a dangling pointer.
  unfoldable pub find_worker : ℕ → List (Entry D) → Option (Worker D)
  find_worker address [] = none
  find_worker address (e ∷ es) =
      if e.address == address then some e.worker else find_worker address es

  -- `list::remove` of a pointer.
  unfoldable pub remove_worker : ℕ → List (Entry D) → List (Entry D)
  remove_worker address [] = []
  remove_worker address (e ∷ es) =
      if e.address == address then remove_worker address es else e ∷ remove_worker address es

  -- The packets of the deleted worker, and the registry without it.
  unfoldable pub delete_worker : ℕ → WorkerRegistry D → Outcome (List ℕ × WorkerRegistry D)
  unfolding find_worker
  delete_worker address r = elim (find_worker address r.current_worker_list) [
    | none ↦ fault
    | some w ↦ do
      shut ← shut_down w
      done (
        shut.0,
        record r {
          current_worker_list = remove_worker address r.current_worker_list;
          dead_worker_list = w.worker_uid ∷ r.dead_worker_list;
        },
      )
  ]

  unfoldable pub get_new_workers_status : WorkerRegistry D → Bool
  get_new_workers_status r = is_flag_set r.new_worker_flag

  -- The address of the first worker with the identifier; NULL is none.
  unfoldable pub find_uid : String → List (Entry D) → Option ℕ
  find_uid uid [] = none
  find_uid uid (e ∷ es) = if str_eq (uid_of e) uid then some e.address else find_uid uid es

  unfoldable pub get_worker_from_uid : String → WorkerRegistry D → Option ℕ
  unfolding find_uid
  get_worker_from_uid uid r = find_uid uid r.current_worker_list

  -- A write through the pointer `address`.
  unfoldable pub put_worker : ℕ → Worker D → List (Entry D) → List (Entry D)
  put_worker address w [] = []
  put_worker address w (e ∷ es) =
      if e.address == address then record e { worker = w } ∷ es else e ∷ put_worker address w es

  -- A method called through a `Worker *`.
  unfoldable pub modify_worker :
      ℕ → (Worker D → Worker D) → WorkerRegistry D → Outcome (WorkerRegistry D)
  unfolding find_worker put_worker
  modify_worker address f r = elim (find_worker address r.current_worker_list) [
    | none ↦ fault
    | some w ↦
        done (record r { current_worker_list = put_worker address (f w) r.current_worker_list })
  ]
