-- ===== src/State/Agreement.antt =====
-- The registry of the data that is under way and the rows of the database agree on a status.
use server_unit.Base.{
  ◌⊎◌, ℕ, ◌≡◌, refl, ap, sym, subst, ◌∙◌, inl, inr, Bool-cases, true, false, none, some, List, [],
  ◌∷◌, ◌++◌, String, str_eq, eq_iff, eq_refl, All, ltb, if◌then◌else◌, done, >>=-eq-done, Returns,
  Returns-bind, Option-cases,
}
use server_unit.Task.{UserTaskStatus, status_code}
use server_unit.Config.{Config, database_url}
use server_unit.Sql.{SqlLib, sql_write_string, sql_update, execute_query, initialize}
use server_unit.Worker.{OutgoingDataState}
use server_unit.Outgoing
use server_unit.Outgoing.{OutgoingRegistry, Updated, find_entry, user_status_enum_to_string}
use server_unit.Outgoing.Status.{with_state, later, latest, update_task_status-eq}
use server_unit.Outgoing.Others.{Watches, Watches-with_status, update_task_status-other}
use server_unit.Monitor.Threads.{own_access}
use server_unit.State.{Server, update_task_status}
use server_unit.State.Statuses.{
  update_status_in_db, make_calls, status_statement, update_statuses, statuses_of,
}

module _ (L : SqlLib) (cfg : Config) where
  open L use {Db}

  make_calls_snoc :
      (cs : List (String × String)) (c : String × String) (d d₁ d₂ : Db)
      → make_calls L cfg cs d ≡ done d₁
      → update_status_in_db L cfg c.0 c.1 d₁ ≡ done d₂
      → make_calls L cfg (cs ++ c ∷ []) d ≡ done d₂
  unfolding make_calls
  make_calls_snoc [] c d d₁ d₂ e last = cc
  make_calls_snoc (x ∷ cs) c d d₁ d₂ e last =
      let (a, first, rest) =
        >>=-eq-done (update_status_in_db L cfg x.0 x.1 d) (make_calls L cfg cs) e in
      rw first (make_calls_snoc cs c a d₁ d₂ rest last)

pub update_status_in_db-eq :
    (L : SqlLib) (cfg : Config)
    → L.connects database_url cfg.database_username cfg.database_password ≡ true
    → (t j : String) (d : L.Db)
    → update_status_in_db L cfg t j d ≡ done (L.run (status_statement t j) d).1
unfolding update_status_in_db sql_write_string sql_update execute_query own_access initialize
    status_statement
update_status_in_db-eq L cfg connected t j d =
    let query = status_statement t j in
    elim (Option-cases (L.run query d).0) [
      | inl e ↦ rw connected (rw e refl)
      | inr (rows, e) ↦ rw connected (rw e refl)
    ]

-- The entry for `id` after an update for `j`.
abbrev seen : String → String → UserTaskStatus → OutgoingDataState → OutgoingDataState
seen id j k st = record st {
  task_status = if str_eq j id then later st.task_status k else st.task_status;
}

seen-latest :
    (id j : String) (k : UserTaskStatus) (cs : List (String × UserTaskStatus))
    (st : OutgoingDataState)
    → latest (seen id j k st).task_status (statuses_of id cs)
      ≡ latest st.task_status (statuses_of id ((j, k) ∷ cs))
seen-latest id j k cs st = elim (Bool-cases (str_eq j id)) [ inl e ↦ rw e refl | inr e ↦ rw e refl ]

module _ (L : SqlLib) (cfg : Config) (column_of : L.Db → String → String) (id : String) (db : L.Db)
    {J D : Type 0} where
  -- The entry for `id` has the status of `st`, and so has its row, when the calls have been made.
  pub record Agrees (p : ℕ) (st : OutgoingDataState) (s : Server J D) : Type 0 where
    pub reachable : s.reachable ≡ true
    pub watched : Watches s.outgoing id p st
    pub made : L.Db
    pub calls : make_calls L cfg s.database db ≡ done made
    pub stored : column_of made id ≡ user_status_enum_to_string st.task_status

module _ (L : SqlLib) (cfg : Config)
    (connected : L.connects database_url cfg.database_username cfg.database_password ≡ true)
    (column_of : L.Db → String → String) (Plain : String → Type 0) (id : String)
    (writes : (k : UserTaskStatus) (j : String) (d : L.Db)
      → Plain j
      → column_of (L.run (status_statement (user_status_enum_to_string k) j) d).1 id
        ≡ (if str_eq j id then user_status_enum_to_string k else column_of d id))
    (db : L.Db) {J D : Type 0} where
  -- The server after `updateTaskStatus`, from what the registry gives.
  abbrev with_updated : Updated → String → Server J D → Server J D
  with_updated u j s = record s {
    outgoing = u.registry;
    database = elim u.written [ none ↦ s.database | some text ↦ s.database ++ (text, j) ∷ [] ];
  }

  made_call :
      (p : ℕ) (st st' : OutgoingDataState) (s : Server J D) (j : String) (k : UserTaskStatus)
      (u : Updated)
      → Agrees L cfg column_of id db p st s
      → Plain j
      → Watches u.registry id p st'
      → u.written ≡ some (user_status_enum_to_string k)
      → (if str_eq j id
          then user_status_enum_to_string k
          else user_status_enum_to_string st.task_status)
        ≡ user_status_enum_to_string st'.task_status
      → Agrees L cfg column_of id db p st' (with_updated u j s)
  made_call p st st' s j k u a plain w is same =
      let text = user_status_enum_to_string k in
      let call =
        make_calls_snoc L cfg s.database (text, j) db a.made
          (L.run (status_statement text j) a.made).1 a.calls
          (update_status_in_db-eq L cfg connected text j a.made) in
      record {
        reachable = a.reachable;
        watched = w;
        made = (L.run (status_statement text j) a.made).1;
        calls = rw is call;
        stored =
            writes k j a.made plain ∙ ap (λ t. if str_eq j id then text else t) a.stored ∙ same;
      }

  no_call :
      (p : ℕ) (st : OutgoingDataState) (s : Server J D) (j : String) (u : Updated)
      → Agrees L cfg column_of id db p st s
      → Watches u.registry id p st
      → u.written ≡ none
      → Agrees L cfg column_of id db p st (with_updated u j s)
  no_call p st s j u a w is = record {
    reachable = a.reachable;
    watched = w;
    made = a.made;
    calls = rw is a.calls;
    stored = a.stored;
  }

  update_own :
      (p : ℕ) (st : OutgoingDataState) (s : Server J D) (k : UserTaskStatus)
      → Agrees L cfg column_of id db p st s
      → Plain id
      → Returns
          (Agrees L cfg column_of id db p (record st { task_status = later st.task_status k }))
          (update_task_status id k s)
  unfolding update_task_status
  update_own p st s k a plain =
      rw
        (ap (λ b. Outgoing.update_task_status b id k s.outgoing) a.reachable
          ∙ update_task_status-eq s.outgoing id p st k a.watched.tracked)
        (elim (Bool-cases (ltb (status_code k) (status_code st.task_status))) [
          | inl e ↦ rw e a
          | inr e ↦ rw e (
              made_call p st (record st { task_status = k }) s id k
                (record {
                  result = true;
                  registry = with_state s.outgoing p (record st { task_status = k });
                  written = some (user_status_enum_to_string k);
                })
                a plain (Watches-with_status k a.watched) refl (rw (eq_refl id) refl))
        ])

  update_other :
      (p : ℕ) (st : OutgoingDataState) (s : Server J D) (j : String) (k : UserTaskStatus)
      → Agrees L cfg column_of id db p st s
      → Plain j
      → str_eq j id ≡ false
      → Returns (Agrees L cfg column_of id db p st) (update_task_status j k s)
  unfolding update_task_status
  update_other p st s j k a plain ne =
      let P = λ (u : Updated).
        Watches u.registry id p st
        × ((u.written ≡ none) ⊎ (u.written ≡ some (user_status_enum_to_string k))) in
      Returns-bind P (Agrees L cfg column_of id db p st)
        (Outgoing.update_task_status s.reachable j k s.outgoing) _
        (subst (λ b. Returns P (Outgoing.update_task_status b j k s.outgoing)) (sym a.reachable)
          (update_task_status-other s.outgoing id p st j k a.watched ne))
        (λ u (w, written). elim written [
          | inl e ↦ no_call p st s j u a w e
          | inr e ↦ made_call p st st s j k u a plain w e (rw ne refl)
        ])

  update_seen :
      (p : ℕ) (st : OutgoingDataState) (s : Server J D) (j : String) (k : UserTaskStatus)
      → Agrees L cfg column_of id db p st s
      → Plain j
      → Returns (Agrees L cfg column_of id db p (seen id j k st)) (update_task_status j k s)
  update_seen p st s j k a plain = elim (Bool-cases (str_eq j id)) [
    | inl e ↦
        let is : j ≡ id = (eq_iff j id).0 e in
        rw e (
          subst
            (λ i.
              Returns
                (Agrees L cfg column_of id db p
                  (record st { task_status = later st.task_status k }))
                (update_task_status i k s))
            (sym is) (update_own p st s k a (subst Plain is plain)))
    | inr e ↦ rw e (update_other p st s j k a plain e)
  ]

  -- If the database takes the connection, and a statement of `updateStatusInDb` for a plain
  -- identifier sets the column of that identifier and of no other, then all calls of
  -- `updateTaskStatus` for plain identifiers return when each entry is live, in whatever order, and
  -- the entry that is tracked for `id` and its row in the database, which had the same status
  -- before, have the same one after: the latest of the old one and those that `id` was given.
  pub update_statuses-Agrees :
      (calls : List (String × UserTaskStatus)) (p : ℕ) (st : OutgoingDataState) (s : Server J D)
      → All (λ c. Plain c.0) calls
      → Agrees L cfg column_of id db p st s
      → Returns
          (Agrees L cfg column_of id db p
            (record st { task_status = latest st.task_status (statuses_of id calls) }))
          (update_statuses calls s)
  unfolding update_statuses
  update_statuses-Agrees [] p st s plain a = a
  update_statuses-Agrees ((j, k) ∷ cs) p st s (plain, rest) a =
      Returns-bind _ _ (update_task_status j k s) (update_statuses cs)
        (update_seen p st s j k a plain)
        (λ s' a'.
          subst
            (λ t.
              Returns (Agrees L cfg column_of id db p (record st { task_status = t }))
                (update_statuses cs s'))
            (seen-latest id j k cs st) (update_statuses-Agrees cs p (seen id j k st) s' rest a'))
