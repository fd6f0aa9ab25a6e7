-- ===== src/Extractor/UserData.antt =====
-- Where new user data goes.
use mathlib.Core.List.{Perm}
use server_unit.Base.{
  ◌+◌, ◌≤◌, ◌≡◌, refl, false, Option, none, ◌∷◌, String, str_eq, arith, All, length, done, Returns,
  Returns-of_eq, Returns-eq, Returns-weaken, sym, subst,
}
use server_unit.Base.Int.{ℤ}
use server_unit.Task.{data_queued}
use server_unit.Config.{
  Config, userdat_table_name, userdat_dat_col_id, userdat_algo_col_id, userdat_dat_priority_col_id,
  userdat_aliasname_col_id,
}
use server_unit.Sql.{SqlLib, SqlAccess, sql_query_db, sql_query_db_get_int}
use server_unit.Sink.{Sink, new_item, push_object}
use server_unit.Sink.Order.{HasRoom, push_object-perm}
use server_unit.Worker.{OutgoingDataState}
use server_unit.Outgoing
use server_unit.Outgoing.{OutgoingRegistry}
use server_unit.Outgoing.Lookup.{Tested}
use server_unit.Outgoing.Status.{Tracks}
use server_unit.Outgoing.Entries.{add-Tracks}
use server_unit.Extractor.{get_task_priority, get_file_data, select_where, extract_user_data}
use server_unit.State.{UserDataTable, Server, push_sender, add_outgoing}

module _ (L : SqlLib) (cfg : Config) (files : String → Option String) (a : SqlAccess)
    (junk : ℤ) where
  open L use {Db}

  abbrev where_file : String → String → String
  where_file column name = select_where column userdat_table_name userdat_dat_col_id name

  -- What the database gives for the file, and the database after the three queries.
  pub record Answered (name : String) (db : Db) : Type 0 where
    pub id : String
    pub priority : ℤ
    pub algo : String
    pub db₁ : Db
    pub db₂ : Db
    pub db₃ : Db
    pub first : sql_query_db L a (where_file userdat_aliasname_col_id name) "" db ≡ done (id, db₁)
    pub second :
        sql_query_db_get_int L junk a (where_file userdat_dat_priority_col_id name) "" db₁
        ≡ done (priority, db₂)
    pub third : sql_query_db L a (where_file userdat_algo_col_id name) "" db₂ ≡ done (algo, db₃)
    pub present : (str_eq name "") ≡ false

  module _ (name : String) (db : Db) (q : Answered name db) where
    -- The user data that is made of it; the text is that of the file without its carriage returns,
    -- or none for a file that is missing.
    abbrev pub extracted : UserDataTable
    extracted = record {
      user_table = q.id;
      priority = get_task_priority q.priority;
      instance_name = q.algo;
      content = get_file_data cfg files name false;
    }

  module _ {J D : Type 0} (name : String) (db : Db) (q : Answered name db) (s : Server J D) where
    extract_user_data-eq :
        (s₁ s₂ : Server J D)
        → push_sender (extracted name db q) (get_task_priority q.priority) s ≡ done s₁
        → add_outgoing q.id none s₁ ≡ done s₂
        → extract_user_data L cfg files a junk name db s ≡ done (q.db₃, s₂)
    unfolding extract_user_data
    extract_user_data-eq s₁ s₂ e f =
        rw (q.present, extract_user_data) (rw q.first (rw q.second (rw q.third (rw e (rw f refl)))))

    -- The registry has no entry for the data, the allocator gives a free address for one, and the
    -- local flag there happens to be off.
    pub record IsNew : Type 0 where
      pub untracked : All (Tested s.outgoing.states false q.id) s.outgoing.out_data_registry_list
      pub free : s.outgoing.states (s.next_address + 1) ≡ none
      pub off : (s.memory (s.next_address + 1)).0 ≡ false

    abbrev pub queued_state : OutgoingDataState
    queued_state = record {
      id = q.id;
      task_status = data_queued;
      worker = (s.memory (s.next_address + 1)).1;
    }

    -- The server after the push, whatever became of the sink.
    abbrev pushed : Sink UserDataTable → Server J D
    pushed sink = record s { sender_sink = sink; next_address = s.next_address + 1 }

    add_outgoing-Tracks :
        (sink : Sink UserDataTable)
        → IsNew
        → (r : OutgoingRegistry) × (add_outgoing q.id none (pushed sink)
            ≡ done (record (pushed sink) { outgoing = r; next_address = s.next_address + 1 + 1 }))
          × Tracks r q.id (s.next_address + 1) queued_state
    unfolding add_outgoing
    add_outgoing-Tracks sink n =
        let fresh = s.next_address + 1 in
        let junk' = (s.memory fresh).1 in
        let (r, e, (t, _, _)) =
          Returns-eq _ (Outgoing.add fresh false junk' q.id none s.outgoing)
            (add-Tracks fresh fresh junk' false q.id s.outgoing n.untracked n.free) in
        (r, rw (n.off, add_outgoing) (rw e refl), t)

    extracted-Tracks :
        (sink : Sink UserDataTable)
        → push_sender (extracted name db q) (get_task_priority q.priority) s ≡ done (pushed sink)
        → IsNew
        → Returns
            (λ r.
              (r.0 ≡ q.db₃)
              × (r.1.sender_sink ≡ sink)
              × Tracks r.1.outgoing q.id (s.next_address + 1) queued_state)
            (extract_user_data L cfg files a junk name db s)
    extracted-Tracks sink e n =
        let (r, added, t) = add_outgoing-Tracks sink n in
        Returns-of_eq _ (extract_user_data L cfg files a junk name db s)
          (extract_user_data-eq (pushed sink)
            (record (pushed sink) { outgoing = r; next_address = s.next_address + 1 + 1 }) e added)
          (refl, refl, t)

    -- If the sender sink is unlocked and has room, the registry has no entry for the data, and the
    -- local flag that `add` reads without having set it happens to be off, the data goes into the
    -- sink with its priority and the text of its file, or none where the file is missing, and the
    -- registry tracks it as queued.
    pub extract_user_data-queued :
        HasRoom s.sender_sink
        → IsNew
        → Returns
            (λ r.
              Perm r.1.sender_sink.sink_item_list (
                new_item
                  (extracted name db q)
                  (get_task_priority q.priority)
                  (s.memory s.next_address).1
                ∷ s.sender_sink.sink_item_list)
              × Tracks r.1.outgoing q.id (s.next_address + 1) queued_state)
            (extract_user_data L cfg files a junk name db s)
    unfolding push_sender
    extract_user_data-queued room n =
        let (items, e, perm) =
          push_object-perm s.sender_sink (extracted name db q) (get_task_priority q.priority)
            (s.memory s.next_address).1 room in
        let sink : Sink UserDataTable = record s.sender_sink { sink_item_list = items } in
        Returns-weaken _ _ (extract_user_data L cfg files a junk name db s)
          (extracted-Tracks sink (rw (e, push_sender) refl) n)
          (λ r (_, same, t). (
            subst
                (λ (x : Sink UserDataTable). Perm x.sink_item_list (
                  new_item (extracted name db q) (get_task_priority q.priority)
                    (s.memory s.next_address).1
                  ∷ s.sender_sink.sink_item_list))
                (sym same) perm,
            t,
          ))

    -- With twenty items in the sender sink, the sink stays as it is, and new user data is tracked as
    -- queued all the same.
    pub extract_user_data-refused :
        20 ≤ length s.sender_sink.sink_item_list
        → IsNew
        → Returns
            (λ r.
              (r.1.sender_sink ≡ s.sender_sink)
              × Tracks r.1.outgoing q.id (s.next_address + 1) queued_state)
            (extract_user_data L cfg files a junk name db s)
    unfolding push_sender push_object
    extract_user_data-refused full n =
        Returns-weaken _ _ (extract_user_data L cfg files a junk name db s)
          (extracted-Tracks s.sender_sink (ground arith) n) (λ r (_, same, t). (same, t))
