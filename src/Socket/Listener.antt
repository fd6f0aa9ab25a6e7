-- ===== src/Socket/Listener.antt =====
-- `listener` and `startSocket` of socket/socket.cpp: the acceptor of connections, and the threads
-- that run the callbacks. Addresses are a parameter, and how an operation on the acceptor ends is an
-- argument.
use server_unit.Base.{
  ℕ, ◌+◌, ◌-◌, ◌%◌, ◌^◌, Bool, true, false, Option, none, some, String, List, [], ◌∷◌, ◌++◌, ltb,
  if◌then◌else◌, Outcome, done, get_value, ◌>>=◌,
}
use server_unit.Base.Int.{ℤ, pos, negsuc}
use server_unit.Socket.Session.{ErrorCode, success, error, Session, new_session, on_run, error_line}

-- `listening`: the acceptor is open, bound and listens. `accepting`: an `async_accept` is under way.
pub record Listener : Type 0 where
  pub listening : Bool
  pub accepting : Bool
  pub errors : List String

-- `fail`.
abbrev pub report : String → String → Listener → Listener
report message what l = record l { errors = l.errors ++ error_line what message ∷ [] }

-- One step of the constructor: the next one is taken if this one succeeds.
abbrev pub attempt : ErrorCode → String → Listener → Listener → Listener
attempt success what l next = next
attempt (error closed message) what l next = report message what l

-- `listener::listener`, with the codes of `open`, `set_option`, `bind` and `listen`.
unfoldable pub new_listener : ErrorCode → ErrorCode → ErrorCode → ErrorCode → Listener
new_listener opened allowed bound listens =
    let l : Listener = record { listening = false; accepting = false; errors = [] } in
    attempt opened "open" l (
      attempt allowed "set_option" l
        (attempt bound "bind" l (attempt listens "listen" l (record l { listening = true }))))

unfoldable pub do_accept : Listener → Listener
do_accept l = record l { accepting = true }

-- `listener::on_accept`: the listener and the session that it starts.
unfoldable pub accept_connection : ErrorCode → Listener → Listener × Option Session
unfolding do_accept on_run
accept_connection success l = (do_accept l, some (on_run new_session))
accept_connection (error closed message) l = (do_accept (report message "accept" l), none)

-- `static_cast<unsigned short>`.
unfoldable pub to_unsigned_short : ℤ → ℕ
to_unsigned_short (pos n) = n % 2 ^ 16
to_unsigned_short (negsuc n) = 2 ^ 16 - 1 - n % 2 ^ 16

-- `std::max<int>(1, n)`.
unfoldable pub at_least_one : ℤ → ℕ
at_least_one (pos n) = if ltb 1 n then n else 1
at_least_one (negsuc n) = 1

-- The loop that starts threads, from `i` down to 1: how many there are.
unfoldable pub start_threads : ℕ → ℕ → ℕ
start_threads ℕ.zero started = started
start_threads (ℕ.suc i) started = start_threads i (started + 1)

-- The service: its endpoint, the threads that it is told to expect, and those that run it.
pub record Service (A : Type 0) : Type 0 where
  pub address : A
  pub port : ℕ
  pub concurrency : ℕ
  pub running : ℕ
  pub listener : Listener

-- `startSocket` up to the `run` of its own thread. `codes` is how the four steps of the constructor
-- end at an endpoint; `run` of the listener follows whatever they are. `make_address` throws for a
-- text that is no address.
unfoldable pub start_socket :
    {A : Type 0}
    → (String → Option A)
    → (A → ℕ → ErrorCode × ErrorCode × ErrorCode × ErrorCode)
    → String
    → ℤ
    → ℤ
    → Outcome (Service A)
unfolding new_listener do_accept at_least_one to_unsigned_short start_threads
start_socket make_address codes input_address port_number total_threads = do
  address ← get_value (make_address input_address)
  let port : ℕ = to_unsigned_short port_number
  let threads : ℕ = at_least_one total_threads
  let c = codes address port
  done (record {
    address = address;
    port = port;
    concurrency = threads;
    running = start_threads (threads - 1) 0 + 1;
    listener = do_accept (new_listener c.0 c.1 c.2 c.3);
  })
