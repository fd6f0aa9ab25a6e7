-- ===== src/Outgoing/Entries.antt =====
-- How entries come and go.
use server_unit.Base.{
  ℕ, ◌≡◌, refl, ap, Bool, true, false, Option, none, some, List, [], ◌∷◌, ◌++◌, String, eq_refl,
  arith, All, contains, done, fault, Returns, Returns-of_eq, Heap, update,
}
use server_unit.Base.Int.{pos}
use server_unit.Task.{data_queued}
use server_unit.Worker.{OutgoingDataState}
use server_unit.Outgoing.{
  OutgoingRegistry, find_entry, unlink_entry, add, delete, find_match_in_list, get_registry_from_id,
}
use server_unit.Outgoing.Lookup.{Tested, find_entry-none, unlink_entry-found}
use server_unit.Outgoing.Status.{Tracks, find_entry-Tracks}

Tested-fresh :
    (states : Heap OutgoingDataState) (id : String) (xs : List ℕ) (fresh : ℕ)
    (v : OutgoingDataState)
    → All (Tested states false id) xs
    → states fresh ≡ none
    → All (Tested (update states fresh (some v)) false id) xs
Tested-fresh states id [] fresh v h f = tt
Tested-fresh states id (x ∷ xs) fresh v ((t, live, ne), h) f =
    ((t, ground arith, ne), Tested-fresh states id xs fresh v h f)

add-eq :
    (fresh junk : ℕ) (id : String) (r : OutgoingRegistry)
    → All (Tested r.states false id) r.out_data_registry_list
    → add fresh false junk id none r
      ≡ done (record {
        out_data_registry_list = r.out_data_registry_list ++ fresh ∷ [];
        states =
            update r.states fresh
              (some (record { id = id; task_status = data_queued; worker = junk }));
      })
unfolding add
add-eq fresh junk id r h = ground (arith, find_entry-none r.states id r.out_data_registry_list h)

add_present :
    (next : ℕ) (flag : Bool) (junk : ℕ) (id : String) {r : OutgoingRegistry} {p : ℕ}
    {s : OutgoingDataState}
    → Tracks r id p s
    → add next flag junk id none r ≡ done r
unfolding add
add_present next flag junk id t = ground (arith, find_entry-Tracks t)

-- `add` for an identifier with no entry, when the local flag happens to be off and the allocator
-- gives a free address: the registry then tracks that identifier as queued, behind all others, and
-- a second `add` of it changes nothing, whatever the flag is then.
pub add-Tracks :
    (fresh next junk : ℕ) (flag : Bool) (id : String) (r : OutgoingRegistry)
    → All (Tested r.states false id) r.out_data_registry_list
    → r.states fresh ≡ none
    → Returns
        (λ r'.
          Tracks r' id fresh (record { id = id; task_status = data_queued; worker = junk })
          × (r'.out_data_registry_list ≡ r.out_data_registry_list ++ fresh ∷ [])
          × (add next flag junk id none r' ≡ done r'))
        (add fresh false junk id none r)
add-Tracks fresh next junk flag id r h free =
    Returns-of_eq _ (add fresh false junk id none r) (add-eq fresh junk id r h)
      (t, refl, add_present next flag junk id t)
  where
    v : OutgoingDataState
    v = record { id = id; task_status = data_queued; worker = junk }

    r' : OutgoingRegistry
    r' = record {
      out_data_registry_list = r.out_data_registry_list ++ fresh ∷ [];
      states = update r.states fresh (some v);
    }

    t : Tracks r' id fresh v
    t = record {
      before = r.out_data_registry_list;
      after = [];
      listed = refl;
      others = Tested-fresh r.states id r.out_data_registry_list fresh v h free;
      held = ground arith;
      same_id = eq_refl id;
    }

-- When the local flag, which nothing initialises, happens to be set, `add` of an identifier with
-- no entry leaves the registry as it is: the data is not tracked.
pub add_skipped :
    (fresh junk : ℕ) (id : String) (worker : Option ℕ) (r : OutgoingRegistry)
    → All (Tested r.states false id) r.out_data_registry_list
    → (add fresh true junk id worker r ≡ done r) × (get_registry_from_id id r ≡ done none)
unfolding add get_registry_from_id
add_skipped fresh junk id worker r h = (
  ground (arith, find_entry-none r.states id r.out_data_registry_list h),
  find_entry-none r.states id r.out_data_registry_list h,
)

Tested-freed :
    (states : Heap OutgoingDataState) (id : String) (xs : List ℕ) (p : ℕ)
    → All (Tested states false id) xs
    → contains p xs ≡ false
    → All (Tested (update states p none) false id) xs
Tested-freed states id [] p h c = tt
Tested-freed states id (x ∷ xs) p ((t, live, ne), h) c =
    ((t, ground arith, ne), Tested-freed states id xs p h (ground arith))

find_entry-dangling :
    (states : Heap OutgoingDataState) (id : String) (before after : List ℕ) (p : ℕ)
    → All (Tested states false id) before
    → states p ≡ none
    → find_entry states id (before ++ p ∷ after) ≡ fault
unfolding find_entry
find_entry-dangling states id [] after p h f = ground arith
find_entry-dangling states id (x ∷ before) after p ((t, live, ne), h) f =
    ground (arith, find_entry-dangling states id before after p h f)

-- `delete` of an entry that is not the first erases it, but frees the state of the entry before
-- it. That entry stays in the list, and a search that gets as far, for an identifier of no entry
-- before it, has no defined result.
pub delete_dangling :
    (id other : String) (r : OutgoingRegistry) (before after : List ℕ) (p q : ℕ)
    → r.out_data_registry_list ≡ before ++ p ∷ q ∷ after
    → All (Tested r.states false id) before
    → Tested r.states false id p
    → Tested r.states true id q
    → All (Tested r.states false other) before
    → contains p before ≡ false
    → Returns
        (λ d.
          (d.0 ≡ pos 0)
          × (d.1.out_data_registry_list ≡ before ++ p ∷ after)
          × (d.1.states p ≡ none)
          × (find_match_in_list other d.1 ≡ fault))
        (delete id r)
unfolding delete find_match_in_list
delete_dangling id other r before after p q e h f g h' c = ground (
  arith,
  ap (unlink_entry r.states id none) e,
  unlink_entry-found r.states id none before after p q h f g,
  find_entry-dangling (update r.states p none) other before after p
      (Tested-freed r.states other before p h' c) (ground arith),
)
