-- ===== src/State/Tracked.antt =====
-- Writes through the shared registries, seen from a tracked entry.
use server_unit.Base.{
  ap, ◌∙◌, Bool-cases, inl, inr, append-nil, ltb, if◌then◌else◌, ℕ, suc, ◌≡◌, refl, true, none,
  some, List, [], ◌∷◌, ◌++◌, String, arith, done, Returns-eq,
}
use server_unit.Task.{UserTaskStatus, status_code}
use server_unit.Worker.{OutgoingDataState, Worker}
use server_unit.Registry.{Entry, find_worker, put_worker}
use server_unit.Outgoing
use server_unit.Outgoing.{OutgoingRegistry, user_status_enum_to_string}
use server_unit.Outgoing.Status.{
  Tracks, with_state, later, find_entry-Tracks, update_task_status-later,
}
use server_unit.State.{Server, update_task_status}

pub find_worker-put_worker :
    {D : Type 0} (a : ℕ) (w w' : Worker D) (es : List (Entry D))
    → find_worker a es ≡ some w
    → find_worker a (put_worker a w' es) ≡ some w'
unfolding find_worker put_worker
find_worker-put_worker a w w' [] h = absurd (cc)
find_worker-put_worker a w w' (e ∷ es) h = ground (arith, find_worker-put_worker a w w' es)

pub assign_worker-eq :
    (r : OutgoingRegistry) (id : String) (p a : ℕ) (s : OutgoingDataState)
    → Tracks r id p s
    → Outgoing.assign_worker id a r ≡ done (true, with_state r p (record s { worker = a }))
unfolding Outgoing.assign_worker
assign_worker-eq r id p a s t = ground (arith, find_entry-Tracks t, t.held)

-- The calls of `updateStatusInDb` that an update makes, from the old status on.
abbrev pub status_calls : UserTaskStatus → UserTaskStatus → String → List (String × String)
status_calls old new id =
    if ltb (status_code new) (status_code old)
    then []
    else (user_status_enum_to_string new, id) ∷ []

module _ {J D : Type 0} where
  -- What `written` stands for.
  calls_lem :
      (s : Server J D) (old new : UserTaskStatus) (id : String) (r : OutgoingRegistry)
      → done (record s {
        outgoing = r;
        database =
            elim (if ltb (status_code new) (status_code old)
              then none
              else some (user_status_enum_to_string new)) [
                | none ↦ s.database
                | some text ↦ s.database ++ (text, id) ∷ []
              ];
      })
        ≡ done (record s { outgoing = r; database = s.database ++ status_calls old new id })
  calls_lem s old new id r = elim (Bool-cases (ltb (status_code new) (status_code old))) [
    | inl e ↦ rw e (rw (append-nil s.database) refl)
    | inr e ↦ rw e refl
  ]

  pub update_task_status-Tracks :
      (id : String) (status : UserTaskStatus) (p : ℕ) (st : OutgoingDataState) (s : Server J D)
      → Tracks s.outgoing id p st
      → s.reachable ≡ true
      → (r : OutgoingRegistry) × (update_task_status id status s
          ≡ done (record s {
            outgoing = r;
            database = s.database ++ status_calls st.task_status status id;
          }))
        × Tracks r id p (record st { task_status = later st.task_status status })
  unfolding update_task_status
  update_task_status-Tracks id status p st s t up =
      let (u, eq, (_, t', _, written)) =
        Returns-eq _ (Outgoing.update_task_status true id status s.outgoing) (
          update_task_status-later s.outgoing id p (suc p) st status t
            (λ e. absurd (omega arith))) in
      (
        u.registry,
        rw (ap (λ b. Outgoing.update_task_status b id status s.outgoing) up ∙ eq)
            (rw written (calls_lem s st.task_status status id u.registry)),
        t',
      )
