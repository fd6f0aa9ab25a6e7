-- ===== src/Outgoing/Others.antt =====
-- An update for one identifier, seen from the entry of another.
use server_unit.Base.{
  ℕ, ◌≡◌, refl, ap, sym, subst, ◌∙◌, ◌⊎◌, inl, inr, Bool-cases, true, false, none, some, List, [],
  ◌∷◌, String, str_eq, eq_iff, arith, All, ltb, ◌==◌, ==_iff, done, Returns, Heap, load, update,
}
use server_unit.Task.{UserTaskStatus, status_code}
use server_unit.Worker.{OutgoingDataState}
use server_unit.Outgoing.{
  OutgoingRegistry, find_entry, update_task_status, user_status_enum_to_string,
}
use server_unit.Outgoing.Lookup.{Tested}
use server_unit.Outgoing.Status.{Tracks, Tracks-with_state, with_state}

abbrev pub IsLive : Heap OutgoingDataState → ℕ → Type 0
IsLive states q = (s : OutgoingDataState) × (states q ≡ some s)

-- Where the loop stops, if all entries are live.
pub find_entry-cases :
    (states : Heap OutgoingDataState) (id : String) (entries : List ℕ)
    → All (IsLive states) entries
    → (find_entry states id entries ≡ done none)
      ⊎ ((q : ℕ) × (find_entry states id entries ≡ done (some q)) × Tested states true id q)
unfolding find_entry
find_entry-cases states id [] h = inl refl
find_entry-cases states id (q ∷ entries) ((s, live), h) = elim (Bool-cases (str_eq s.id id)) [
  | inl e ↦ inr (q, ground arith, (s, live, e))
  | inr e ↦ elim (find_entry-cases states id entries h) [
    | inl f ↦ inl (ground arith)
    | inr (p, f, t) ↦ inr (p, ground arith, t)
  ]
]

update-IsLive :
    (states : Heap OutgoingDataState) (q : ℕ) (s : OutgoingDataState) (entries : List ℕ)
    → All (IsLive states) entries
    → All (IsLive (update states q (some s))) entries
update-IsLive states q s [] h = tt
update-IsLive states q s (x ∷ entries) (live, h) = (
  elim (Bool-cases (q == x)) [ inl e ↦ (s, rw e refl) | inr e ↦ rw e live ],
  update-IsLive states q s entries h,
)

-- A state is replaced by one with the same identifier.
same_id-Tested :
    (states : Heap OutgoingDataState) (id : String) (q : ℕ) (s s' : OutgoingDataState)
    (entries : List ℕ)
    → states q ≡ some s
    → s'.id ≡ s.id
    → All (Tested states false id) entries
    → All (Tested (update states q (some s')) false id) entries
same_id-Tested states id q s s' [] held same h = tt
same_id-Tested states id q s s' (x ∷ entries) held same ((t, live, ne), h) = (
  elim (Bool-cases (q == x)) [
    | inl e ↦
        let at : q ≡ x = (==_iff q x).0 e in
        let is : some s ≡ some t = sym held ∙ ap states at ∙ live in
        (s', rw e refl, ap (λ i. str_eq i id) (same ∙ cc) ∙ ne)
    | inr e ↦ (t, rw e live, ne)
  ],
  same_id-Tested states id q s s' entries held same h,
)

-- Two names that are equal to a third are equal.
eq_same : (a b c : String) → str_eq a b ≡ true → str_eq a c ≡ true → str_eq b c ≡ true
eq_same a b c ab ac = subst (λ x. str_eq x c ≡ true) ((eq_iff a b).0 ab) ac

-- The entry for `id` is the one at `p`, and all entries are live.
pub record Watches (r : OutgoingRegistry) (id : String) (p : ℕ) (s : OutgoingDataState)
    : Type 0 where
  pub live : All (IsLive r.states) r.out_data_registry_list
  pub tracked : Tracks r id p s

pub Watches-with_state :
    {r : OutgoingRegistry} {id : String} {p : ℕ} {s : OutgoingDataState}
    → (q : ℕ) (t t' : OutgoingDataState) → Watches r id p s
    → r.states q ≡ some t
    → t'.id ≡ t.id
    → str_eq t.id id ≡ false
    → Watches (with_state r q t') id p s
Watches-with_state {r} {id} {p} {s} q t t' w held same ne = record {
  live = update-IsLive r.states q t' r.out_data_registry_list w.live;
  tracked = record {
    before = w.tracked.before;
    after = w.tracked.after;
    listed = w.tracked.listed;
    others = same_id-Tested r.states id q t t' w.tracked.before held same w.tracked.others;
    held = elim (Bool-cases (q == p)) [
      | inl e ↦
          let at : q ≡ p = (==_iff q p).0 e in
          let is : some t ≡ some s = sym held ∙ ap r.states at ∙ w.tracked.held in
          absurd (let same_id = w.tracked.same_id in cc)
      | inr e ↦ rw e w.tracked.held
    ];
    same_id = w.tracked.same_id;
  };
}

-- An update for another identifier returns, leaves the entry alone, and calls for the text of the
-- new status or for nothing.
pub update_task_status-other :
    (r : OutgoingRegistry) (id : String) (p : ℕ) (s : OutgoingDataState) (j : String)
    (status : UserTaskStatus)
    → Watches r id p s
    → str_eq j id ≡ false
    → Returns
        (λ u.
          Watches u.registry id p s
          × ((u.written ≡ none) ⊎ (u.written ≡ some (user_status_enum_to_string status))))
        (update_task_status true j status r)
unfolding update_task_status
update_task_status-other r id p s j status w ne =
    elim (find_entry-cases r.states j r.out_data_registry_list w.live) [
      | inl none_there ↦ rw none_there (w, inl refl)
      | inr (q, found, (t, held, is)) ↦
          let apart : str_eq t.id id ≡ false = rw ((eq_iff t.id j).0 is) ne in
          rw found (
            rw (held, load)
              (elim (Bool-cases (ltb (status_code status) (status_code t.task_status))) [
                | inl e ↦ rw e (w, inl refl)
                | inr e ↦ rw e (
                  Watches-with_state q t (record t { task_status = status }) w held refl apart,
                  inr refl,
                )
              ]))
    ]

pub Watches-with_status :
    {r : OutgoingRegistry} {id : String} {p : ℕ} {s : OutgoingDataState} (status : UserTaskStatus)
    → Watches r id p s
    → Watches
        (with_state r p (record s { task_status = status }))
        id
        p
        (record s { task_status = status })
Watches-with_status {r} {id} {p} {s} status w = record {
  live =
      update-IsLive r.states p (record s { task_status = status }) r.out_data_registry_list w.live;
  tracked = Tracks-with_state (record s { task_status = status }) w.tracked refl;
}
