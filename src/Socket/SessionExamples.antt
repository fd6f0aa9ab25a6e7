-- ===== src/Socket/SessionExamples.antt =====
-- A session that gets two messages which do not parse, and a listener on a port in use.
use server_unit.Base.{
  ℕ, ◌+◌, ◌≡◌, refl, true, false, Option, none, some, List, [], ◌∷◌, ◌++◌, String, length, done,
}
use server_unit.Json.Concrete.{Value, values, schemas}
use server_unit.Sender.Examples.{server}
use server_unit.Socket.Messages.{on_read-unparsed}
use server_unit.Socket.Session.{
  ErrorCode, success, error, async_read, Session, Reading, accepted, new_session, on_run, complete,
  on_accept, do_read,
}
use server_unit.Socket.Exchange.{
  Exchange, turns_of, Awaits, serve, Replies, last, next, serve-Replies,
}
use server_unit.Socket.Listener.{Listener, new_listener, do_accept, accept_connection}
use server_unit.Socket.Network
use server_unit.Socket.Network.{Network, IsServing, Reach, Reach-IsServing}
use server_unit.Socket.Endpoint.{accept_all, new_listener-refused}

abbrev parse : String → Option Value
parse text = none

abbrev dump : Value → Option String
dump j = some "handshake"

abbrev garbled : Reading Value ℕ
garbled = record {
  code = success;
  message = "{";
  is_text = true;
  fuel = 3;
  draws = λ k. 77;
  others = λ k t. t;
  write_code = success;
  stale = "?";
}

abbrev exchange : Exchange Value ℕ
exchange = record { before_read = λ t. t; reading = garbled; before_sent = λ t. t }

abbrev reading_session : Session
reading_session = record new_session { pending = some async_read }

replies :
    Replies values schemas parse dump 0
      (exchange ∷ exchange ∷ [])
      ("handshake" ∷ "?" ∷ "handshake" ∷ "?" ∷ [])
      server
      server
replies =
    let unparsed = on_read-unparsed values schemas parse (λ k. 77) 0 (λ k t. t) "{" server 3 refl in
    next _ "handshake" refl refl unparsed refl (next _ "handshake" refl refl unparsed refl last)

serve-Replies_example :
    (c' : Session) × (serve values schemas parse dump 0
        (turns_of (exchange ∷ exchange ∷ []))
        reading_session
        server
      ≡ done (some (c', server)))
    × Awaits c'
    × (c'.written ≡ reading_session.written ++ "handshake" ∷ "?" ∷ "handshake" ∷ "?" ∷ [])
    × (c'.errors ≡ reading_session.errors)
serve-Replies_example =
    serve-Replies values schemas parse dump 0 (exchange ∷ exchange ∷ [])
      ("handshake" ∷ "?" ∷ "handshake" ∷ "?" ∷ []) reading_session server server
      (record { reads = refl; empty = refl }) replies

abbrev idle_listener : Listener
idle_listener = record { listening = true; accepting = false; errors = [] }

-- A connection that was accepted, with its session reading.
abbrev connected : Network Value ℕ
connected = record {
  listener = record idle_listener { accepting = true };
  sessions = reading_session ∷ [];
  server = server;
}

connected-Reach : Reach values schemas parse dump 0 connected
unfolding do_accept accept_connection complete on_run on_accept do_read
connected-Reach =
    Network.next (Network.next (Network.here idle_listener server) (Network.connect success refl))
      (Network.callback 0 (accepted success) refl refl refl)

Reach-IsServing_example : IsServing connected
Reach-IsServing_example = Reach-IsServing values schemas parse dump 0 connected-Reach

abbrev failures : List ErrorCode
failures = error false "bad descriptor" ∷ error false "bad descriptor" ∷ []

new_listener-refused_example :
    let after =
      accept_all failures
        (do_accept (new_listener success success (error false "address in use") success), []) in
    (after.1 ≡ []) × (length after.0.errors ≡ 1 + length failures) × (after.0.accepting ≡ true)
new_listener-refused_example =
    new_listener-refused success success (error false "address in use") success failures []
      (unfold new_listener in refl) (tt, (tt, tt))
