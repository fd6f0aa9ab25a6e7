-- ===== src/Templates.antt =====
-- sender_unit/userdata_template_registry.cpp: the templates, which tell workers how to process
-- data, and the packets made from them. The data of a template is never NULL here.
pub mod Updates
mod Examples
use server_unit.Base.{
  ℕ, zero, suc, Bool, true, false, not, Option, none, some, List, [], ◌∷◌, ◌++◌, String, str_eq,
  map, length, ◌==◌, if◌then◌else◌, Outcome, done, ◌>>=◌, sem_wait, sem_post,
}
use server_unit.Task.{Flag, init_flag, set_flag, reset_flag, is_flag_set}

-- `algoType` is a `uint8_t`.
pub record Template : Type 0 where
  pub template_name : String
  pub algo_type : ℕ
  pub content : String

-- The registry; `J` is the type of JSON values.
pub record UserDataTemplate (J : Type 0) : Type 0 where
  pub template_list : List Template
  pub json_list : List J
  pub template_lock : ℕ
  pub data_updated : Flag

abbrev pub names : List Template → List String
names = map λ t. t.template_name

unfoldable pub has_name : String → List String → Bool
has_name name [] = false
has_name name (n ∷ ns) = if str_eq name n then true else has_name name ns

-- The flag of the inner loop, from its initial value on.
unfoldable pub item_present : Bool → String → List String → Bool
unfolding has_name
item_present init name ns = if has_name name ns then true else init

-- The first loop of `update`: an entry whose flag is not set is erased. The flag starts set.
unfoldable pub discard_missing : List String → List Template → List Template
unfolding item_present
discard_missing given [] = []
discard_missing given (t ∷ ts) =
    let rest = discard_missing given ts in
    if item_present true t.template_name given then t ∷ rest else rest

-- The second loop: a given template whose name is not in the list yet goes behind it. The flag
-- starts off.
unfoldable pub add_missing : List Template → List Template → List Template
unfolding item_present
add_missing list [] = list
add_missing list (t ∷ ts) =
    let list' = if item_present false t.template_name (names list) then list else list ++ t ∷ [] in
    add_missing list' ts

module _ {J : Type 0} where
  -- The constructor; `dataUpdated` starts set.
  unfoldable pub new_templates : UserDataTemplate J
  new_templates = record {
    template_list = [];
    json_list = [];
    template_lock = 1;
    data_updated = init_flag true;
  }

  -- What `update` returns: EXIT_FAILURE is 1. With a success come the names that
  -- `workerInstanceList.updateInstanceList` is called with. `to_json` makes the packet of a template.
  unfoldable pub update :
      (Template → J)
      → List Template
      → UserDataTemplate J
      → Outcome (ℕ × UserDataTemplate J × Option (List String))
  unfolding discard_missing add_missing
  update to_json [] u = done (1, u, none)
  update to_json (g ∷ gs) u = do
    lock ← sem_wait u.template_lock
    let kept = discard_missing (names (g ∷ gs)) u.template_list
    let list = add_missing kept (g ∷ gs)
    done (
      0,
      record {
        template_list = list;
        json_list = map to_json list;
        template_lock = sem_post lock;
        data_updated = set_flag u.data_updated;
      },
      some (names list),
    )

  abbrev pub reset_updated : UserDataTemplate J → UserDataTemplate J
  reset_updated u = record u { data_updated = reset_flag u.data_updated }

  abbrev pub get_update_status : UserDataTemplate J → Bool
  get_update_status u = is_flag_set u.data_updated

  unfoldable pub list_size : UserDataTemplate J → ℕ
  list_size u = length u.template_list

  unfoldable pub is_matching_found :
      String → UserDataTemplate J → Outcome (Bool × UserDataTemplate J)
  unfolding has_name
  is_matching_found id u = do
    lock ← sem_wait u.template_lock
    done (has_name id (names u.template_list), record u { template_lock = sem_post lock })
