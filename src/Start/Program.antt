-- ===== src/Start/Program.antt =====
-- `main` of main.cpp from the dialogue to the service of the socket, before any of the threads that
-- it starts takes a turn.
use server_unit.Base.{
  ℕ, ◌-◌, ◌%◌, ◌≤◌, ◌≡◌, refl, ap, ◌∙◌, Bool, true, false, Option, some, List, [], ◌∷◌, String,
  arith, length, All, Outcome, done, blocked, fault, ◌>>=◌, Returns-eq,
}
use server_unit.Base.Int.{ℤ, pos, negsuc}
use server_unit.Task.{Flag, init_flag, is_flag_set, Process, low_priority}
use server_unit.Config.{Config, configure, database_url, userdat_table_name}
use server_unit.Sql.{SqlLib, SqlAccess, new_sql_access, initialize}
use server_unit.Pool.{TaskPool, new_task_pool, add_task, link_tail}
use server_unit.Scheduler.{ThreadQueue, Sched, init_sched, init_queues}
use server_unit.Scheduler.Invariant.{IsValid}
use server_unit.Scheduler.Safety.{Fresh, init_queues-Fresh}
use server_unit.Scheduler.System.{System, Reach, here, next, submit}
use server_unit.State.{Server, Task, sender_core_task}
use server_unit.Monitor.Threads.{start_service}
use server_unit.Socket.Session.{ErrorCode}
use server_unit.Socket.Listener.{Service, start_socket}
use server_unit.Socket.Endpoint.{start_socket-runs}
use server_unit.Start.{new_server, run_sender_core, IsStarted, start_server, start_server-IsStarted}

-- What the user types.
pub record Answers : Type 0 where
  pub address : String
  pub port : ℤ
  pub socket_threads : ℤ
  pub max_threads : ℤ
  pub dir : String
  pub name : String
  pub username : String
  pub password : String

-- The number of threads as the `uint8_t` that `init_sched` takes.
unfoldable pub to_uint8 : ℤ → ℕ
to_uint8 (pos n) = n % 256
to_uint8 (negsuc n) = 255 - n % 256

pub record Program (J D A : Type 0) : Type 0 where
  pub config : Config
  pub monitor_stop : Flag
  pub sql_access : SqlAccess
  pub sched : Sched Task
  pub server : Server J D
  pub service : Service A

abbrev pub system : {S : Type 0} → Sched Task → S → System Task S
system sched world = record {
  sched = sched;
  world = world;
  submitted = sender_core_task ∷ [];
  ended = [];
}

init_sched-eq :
    (n : ℕ) (qs : List (ThreadQueue Task))
    → init_queues n 0 ≡ done qs
    → init_sched n new_task_pool ≡ done (record { pool = new_task_pool; queues = qs })
unfolding init_sched
init_sched-eq n qs e = rw e refl

empty_pool :
    (J D : Type 0) (up : Bool) (memory : ℕ → Bool × ℕ)
    → (new_server {J = J} {D = D} up memory).task_pool ≡ new_task_pool
unfolding new_server
empty_pool J D up memory = refl

-- Whether the database takes the configured connection.
abbrev pub takes_connection : SqlLib → Config → Bool
takes_connection L config =
    L.connects database_url config.database_username config.database_password

-- The same for what the user types.
abbrev is_up : SqlLib → Answers → Bool
is_up L a = takes_connection L (configure a.dir a.name a.username a.password)

-- The access of `globalSqlAccess`.
abbrev pub make_access : SqlLib → Config → SqlAccess
make_access L config = initialize L (
    new_sql_access database_url config.database_username config.database_password
      config.database_name userdat_table_name)

pool_of : {J D : Type 0} → Outcome (Server J D) → TaskPool Task
pool_of (done s) = s.task_pool
pool_of blocked = new_task_pool
pool_of fault = new_task_pool

-- The pool takes the sender core.
sender_pool :
    {J D : Type 0} (up : Bool) (memory : ℕ → Bool × ℕ) (s : Server J D)
    → start_server up memory ≡ done s
    → add_task new_task_pool sender_core_task low_priority ≡ done (pos 0, s.task_pool)
unfolding start_server add_task link_tail new_task_pool pool_of
sender_pool {J} {D} up memory s e = ap (λ (o : Outcome (Server J D)). done (pos 0, pool_of o)) e

module _ (L : SqlLib) {J D A : Type 0} (make_address : String → Option A)
    (codes : A → ℕ → ErrorCode × ErrorCode × ErrorCode × ErrorCode) (memory : ℕ → Bool × ℕ) where
  unfoldable pub run_main : Answers → Outcome (Program J D A)
  run_main a = do
    let stop = init_flag true
    let config = configure a.dir a.name a.username a.password
    let s : Server J D = new_server (takes_connection L config) memory
    let sql_access = make_access L config
    sched ← init_sched (to_uint8 a.max_threads) s.task_pool
    s' ← run_sender_core s
    let monitor_stop = start_service (start_service stop)
    service ← start_socket make_address codes a.address a.port a.socket_threads
    done (record {
      config = config;
      monitor_stop = monitor_stop;
      sql_access = sql_access;
      sched = record sched { pool = s'.task_pool };
      server = s';
      service = service;
    })

  made_server :
      (up : Bool) (s : Server J D)
      → start_server up memory ≡ done s
      → run_sender_core (new_server up memory) ≡ done s
  unfolding start_server
  made_server up s e = e

  run_main-eq :
      (a : Answers) (sched : Sched Task) (s : Server J D) (service : Service A)
      → init_sched (to_uint8 a.max_threads) new_task_pool ≡ done sched
      → start_server (is_up L a) memory ≡ done s
      → start_socket make_address codes a.address a.port a.socket_threads ≡ done service
      → run_main a
        ≡ done (record {
          config = configure a.dir a.name a.username a.password;
          monitor_stop = init_flag false;
          sql_access = make_access L (configure a.dir a.name a.username a.password);
          sched = record sched { pool = s.task_pool };
          server = s;
          service = service;
        })
  unfolding run_main
  run_main-eq a sched s service inited started opened =
      let n = to_uint8 a.max_threads in
      let inited' = ap (init_sched n) (empty_pool J D (is_up L a) memory) ∙ inited in
      rw inited' (rw (made_server (is_up L a) s started) (rw opened refl))

  module _ (a : Answers) (address : A) (reads : make_address a.address ≡ some address) where
    -- With at most ten scheduler threads, as the number is read into a byte, and an address that can
    -- be read, `main` returns from all that it starts: the server is started, its pool is the one of
    -- the scheduler, whose queues are valid, one for each thread, and in a state that the system of
    -- threads reaches; the monitors are not to stop; and as many threads run the socket as it expects.
    pub run_main-starts :
        {S : Type 0} (proc : Task → Process S) (world : S)
        → to_uint8 a.max_threads ≤ 10
        → (p : Program J D A) × (run_main a ≡ done p)
          × IsStarted p.server
          × (p.sched.pool ≡ p.server.task_pool)
          × (length p.sched.queues ≡ to_uint8 a.max_threads)
          × All IsValid p.sched.queues
          × Reach proc (to_uint8 a.max_threads) (system p.sched world)
          × (is_flag_set p.monitor_stop ≡ false)
          × (p.service.running ≡ p.service.concurrency)
    run_main-starts proc world b =
        let n = to_uint8 a.max_threads in
        let (qs, made, (count, valid, _)) =
          Returns-eq (Fresh proc (λ t. 0) n n) (init_queues n 0)
            (init_queues-Fresh proc (λ t. 0) n n 0 (omega arith)) in
        let (s, started, is) = start_server-IsStarted {J = J} {D = D} (is_up L a) memory in
        let service =
          start_socket-runs make_address codes a.address address a.port a.socket_threads reads in
        let sched : Sched Task = record { pool = new_task_pool; queues = qs } in
        let inited = init_sched-eq n qs made in
        (
          record {
            config = configure a.dir a.name a.username a.password;
            monitor_stop = init_flag false;
            sql_access = make_access L (configure a.dir a.name a.username a.password);
            sched = record { pool = s.task_pool; queues = qs };
            server = s;
            service = service.0;
          },
          run_main-eq a sched s service.0 inited started service.1,
          is,
          refl,
          count,
          valid,
          next (here {sched = sched} world inited) (
              submit sender_core_task low_priority (sender_pool (is_up L a) memory s started) refl),
          refl,
          service.5,
        )
