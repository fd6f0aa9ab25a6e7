-- ===== src/Outgoing/Lookup.antt =====
-- Where the loop over the entries stops.
use server_unit.Base.{
  ℕ, ◌≡◌, refl, Bool, true, false, Option, none, some, List, [], ◌∷◌, ◌++◌, String, str_eq, arith,
  All, done, Heap,
}
use server_unit.Worker.{OutgoingDataState}
use server_unit.Outgoing.{find_entry, unlink_entry}

module _ (states : Heap OutgoingDataState) where
  -- The address holds a state, and the test of its identifier against `id` gives `b`.
  abbrev pub Tested : Bool → String → ℕ → Type 0
  Tested b id p = (s : OutgoingDataState) × (states p ≡ some s) × ((str_eq s.id id) ≡ b)

  pub find_entry-found :
      (id : String) (before after : List ℕ) (p : ℕ)
      → All (Tested false id) before
      → Tested true id p
      → find_entry states id (before ++ p ∷ after) ≡ done (some p)
  unfolding find_entry
  find_entry-found id [] after p h (s, live, eq) = ground arith
  find_entry-found id (x ∷ before) after p ((s, live, eq), h) f =
      ground (arith, find_entry-found id before after p h f)

  pub find_entry-none :
      (id : String) (entries : List ℕ)
      → All (Tested false id) entries
      → find_entry states id entries ≡ done none
  unfolding find_entry
  find_entry-none id [] h = refl
  find_entry-none id (x ∷ entries) ((s, live, eq), h) = ground (arith, find_entry-none id entries h)

  pub unlink_entry-found :
      (id : String) (start : Option ℕ) (before after : List ℕ) (p q : ℕ)
      → All (Tested false id) before
      → Tested false id p
      → Tested true id q
      → unlink_entry states id start (before ++ p ∷ q ∷ after)
        ≡ done (some (some p, before ++ p ∷ after))
  unfolding unlink_entry
  unlink_entry-found id start [] after p q h (s, live, eq) (s', live', eq') = ground arith
  unlink_entry-found id start (x ∷ before) after p q ((s, live, eq), h) f g =
      ground (arith, unlink_entry-found id (some x) before after p q h f g)
