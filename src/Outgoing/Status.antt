-- ===== src/Outgoing/Status.antt =====
-- The status of an entry only rises.
use mathlib.Core.List.{Mem, mem-cons_self, mem-cons_of_mem}
use server_unit.Base.{
  ℕ, suc, ◌≤◌, ◌≡◌, ◌≢◌, refl, ap, sym, subst, ◌⊎◌, inl, inr, Bool-cases, ◌∙◌, true, false, none,
  some, List, [], ◌∷◌, ◌++◌, String, str_eq, arith, All, ltb, if◌then◌else◌, Outcome, done, ◌>>=◌,
  Returns, Returns-of_eq, Returns-bind, Returns-weaken, Heap, update,
}
use server_unit.Task.{UserTaskStatus, status_code}
use server_unit.Worker.{OutgoingDataState}
use server_unit.Outgoing.{
  OutgoingRegistry, find_entry, update_task_status, user_status_enum_to_string,
}
use server_unit.Outgoing.Lookup.{Tested, find_entry-found}

-- The first entry for `id` stands at the address `p`, and holds the state `s`.
pub record Tracks (r : OutgoingRegistry) (id : String) (p : ℕ) (s : OutgoingDataState)
    : Type 0 where
  pub before : List ℕ
  pub after : List ℕ
  pub listed : r.out_data_registry_list ≡ before ++ p ∷ after
  pub others : All (Tested r.states false id) before
  pub held : r.states p ≡ some s
  pub same_id : (str_eq s.id id) ≡ true

Tested-update :
    (states : Heap OutgoingDataState) (id : String) (xs : List ℕ) (p : ℕ) (s s' : OutgoingDataState)
    → All (Tested states false id) xs
    → states p ≡ some s
    → (str_eq s.id id) ≡ true
    → All (Tested (update states p (some s')) false id) xs
Tested-update states id [] p s s' h held eq = tt
Tested-update states id (x ∷ xs) p s s' ((t, live, ne), h) held eq =
    ((t, ground arith, ne), Tested-update states id xs p s s' h held eq)

-- The registry in which the entry at `p` has the state `s`.
abbrev pub with_state : OutgoingRegistry → ℕ → OutgoingDataState → OutgoingRegistry
with_state r p s = record r { states = update r.states p (some s) }

pub Tracks-with_state :
    {r : OutgoingRegistry} {id : String} {p : ℕ} {s : OutgoingDataState} (s' : OutgoingDataState)
    → Tracks r id p s
    → s'.id ≡ s.id
    → Tracks (with_state r p s') id p s'
Tracks-with_state {r} {id} {p} {s} s' t e = record {
  before = t.before;
  after = t.after;
  listed = t.listed;
  others = Tested-update r.states id t.before p s s' t.others t.held t.same_id;
  held = ground arith;
  same_id = rw e t.same_id;
}

pub find_entry-Tracks :
    {r : OutgoingRegistry} {id : String} {p : ℕ} {s : OutgoingDataState}
    → Tracks r id p s
    → find_entry r.states id r.out_data_registry_list ≡ done (some p)
find_entry-Tracks {r} {id} {p} {s} t =
    ap (find_entry r.states id) t.listed
    ∙ find_entry-found r.states id t.before t.after p t.others (s, t.held, t.same_id)

-- The later of two statuses; the new one if they are the same.
abbrev pub later : UserTaskStatus → UserTaskStatus → UserTaskStatus
later old new = if ltb (status_code new) (status_code old) then old else new

pub update_task_status-eq :
    (r : OutgoingRegistry) (id : String) (p : ℕ) (s : OutgoingDataState) (status : UserTaskStatus)
    → Tracks r id p s
    → update_task_status true id status r
      ≡ done (
          if ltb (status_code status) (status_code s.task_status)
          then record { result = true; registry = r; written = none }
          else record {
            result = true;
            registry = with_state r p (record s { task_status = status });
            written = some (user_status_enum_to_string status);
          })
unfolding update_task_status
update_task_status-eq r id p s status t = ground (arith, find_entry-Tracks t, t.held)

-- While the database can be reached, an update of a tracked entry returns true. It leaves the entry at the later of the two statuses
-- and the state at any other address as it is, and writes the text of the new status to the database unless
-- that status is the earlier one.
pub update_task_status-later :
    (r : OutgoingRegistry) (id : String) (p q : ℕ) (s : OutgoingDataState) (status : UserTaskStatus)
    → Tracks r id p s
    → q ≢ p
    → Returns
        (λ u.
          (u.result ≡ true)
          × Tracks u.registry id p (record s { task_status = later s.task_status status })
          × (u.registry.states q ≡ r.states q)
          × (u.written ≡ (
              if ltb (status_code status) (status_code s.task_status)
              then none
              else some (user_status_enum_to_string status))))
        (update_task_status true id status r)
update_task_status-later r id p q s status t ne =
    Returns-of_eq _ (update_task_status true id status r) (update_task_status-eq r id p s status t)
      (elim (Bool-cases (ltb (status_code status) (status_code s.task_status))) [
        | inl e ↦ rw e (refl, t, refl, refl)
        | inr e ↦
            rw e (
              refl,
              Tracks-with_state (record s { task_status = status }) t refl,
              ground arith,
              refl,
            )
      ])

-- `updateTaskStatus` for one identifier, as the handlers of successive packets call it while the
-- database can be reached.
unfoldable pub update_all :
    String → List UserTaskStatus → OutgoingRegistry → Outcome OutgoingRegistry
update_all id [] r = done r
update_all id (k ∷ ks) r = do u ← update_task_status true id k r; update_all id ks u.registry

abbrev pub latest : UserTaskStatus → List UserTaskStatus → UserTaskStatus
latest old [] = old
latest old (k ∷ ks) = latest (later old k) ks

latest-le :
    (old : UserTaskStatus) (ks : List UserTaskStatus)
    → status_code old ≤ status_code (latest old ks)
latest-le old [] = omega arith
latest-le old (k ∷ ks) = ground (arith, latest-le (later old k) ks)

latest-All :
    (old : UserTaskStatus) (ks : List UserTaskStatus)
    → All (λ k. status_code k ≤ status_code (latest old ks)) ks
latest-All old [] = tt
latest-All old (k ∷ ks) = (ground (arith, latest-le (later old k) ks), latest-All (later old k) ks)

later-cases : (old new : UserTaskStatus) → (later old new ≡ old) ⊎ (later old new ≡ new)
later-cases old new = elim (Bool-cases (ltb (status_code new) (status_code old))) [
  | inl e ↦ rw e (inl refl)
  | inr e ↦ rw e (inr refl)
]

latest-mem :
    (old : UserTaskStatus) (ks : List UserTaskStatus)
    → (latest old ks ≡ old) ⊎ Mem (latest old ks) ks
latest-mem old [] = inl refl
latest-mem old (k ∷ ks) = go (latest-mem (later old k) ks) (later-cases old k)
  where
    go :
        (latest (later old k) ks ≡ later old k) ⊎ Mem (latest (later old k) ks) ks
        → (later old k ≡ old) ⊎ (later old k ≡ k)
        → (latest (later old k) ks ≡ old) ⊎ Mem (latest (later old k) ks) (k ∷ ks)
    go (inl e) (inl f) = inl (e ∙ f)
    go (inl e) (inr f) = inr (subst (λ x. Mem x (k ∷ ks)) (sym (e ∙ f)) mem-cons_self)
    go (inr m) _ = inr (mem-cons_of_mem k m)

update_all-latest :
    (id : String) (ks : List UserTaskStatus) (r : OutgoingRegistry) (p : ℕ) (s : OutgoingDataState)
    → Tracks r id p s
    → Returns
        (λ r'. Tracks r' id p (record s { task_status = latest s.task_status ks }))
        (update_all id ks r)
unfolding update_all
update_all-latest id [] r p s t = t
update_all-latest id (k ∷ ks) r p s t =
    Returns-bind _ _ (update_task_status true id k r) _
      (update_task_status-later r id p (suc p) s k t (λ e. absurd (omega arith)))
      λ u (_, t', _, _).
        update_all-latest id ks u.registry p (record s { task_status = later s.task_status k }) t'

-- While the database can be reached, however many updates a tracked entry gets, in whatever order:
-- they return, and the entry has a status that is not before its old one nor before any of the new
-- ones, and is one of these.
pub update_all-highest :
    (id : String) (ks : List UserTaskStatus) (r : OutgoingRegistry) (p : ℕ) (s : OutgoingDataState)
    → Tracks r id p s
    → Returns
        (λ r'.
          (k : UserTaskStatus) × Tracks r' id p (record s { task_status = k })
          × (status_code s.task_status ≤ status_code k)
          × All (λ j. status_code j ≤ status_code k) ks
          × ((k ≡ s.task_status) ⊎ Mem k ks))
        (update_all id ks r)
update_all-highest id ks r p s t =
    Returns-weaken _ _ (update_all id ks r) (update_all-latest id ks r p s t) λ r' t'. (
      latest s.task_status ks,
      t',
      latest-le s.task_status ks,
      latest-All s.task_status ks,
      latest-mem s.task_status ks,
    )
