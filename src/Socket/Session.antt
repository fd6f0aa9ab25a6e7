-- ===== src/Socket/Session.antt =====
-- `session` of socket/socket.cpp: a connection, as its callbacks drive it. Boost.Beast is third-party
-- code: an operation that a session starts is kept in `pending`, and how it ends is an argument of
-- the callback. Options of the stream that no later code reads are left out.
use Prim.Native.String.{◌++◌ as join}
use server_unit.Base.{
  ℕ, Bool, true, false, Option, none, some, String, List, [], ◌∷◌, ◌++◌, Outcome, done, fault,
  get_value, ◌>>=◌,
}
use server_unit.Json.{JsonLib}
use server_unit.Json.Schema.{SchemaLib}
use server_unit.State.{Server}
use server_unit.Socket.{on_read}

-- `beast::error_code`: whether it is `websocket::error::closed`, and its message.
pub data ErrorCode : Type 0 where
  success : ErrorCode
  error : Bool → String → ErrorCode

pub data Operation : Type 0 where
  async_accept async_read async_write : Operation

-- `text_mode` is whether the stream sends text messages. `written` is what it was given to send, and
-- `errors` are the lines on `std::cerr`.
pub record Session : Type 0 where
  pub buffer : String
  pub pending : Option Operation
  pub text_mode : Bool
  pub written : List String
  pub errors : List String

abbrev pub error_line : String → String → String
error_line what message = join what (join ": " (join message "\n"))

-- `fail`; the session starts no operation after it.
unfoldable pub fail : String → String → Session → Session
fail message what c = record c { errors = c.errors ++ error_line what message ∷ [] }

abbrev pub new_session : Session
new_session = record { buffer = ""; pending = none; text_mode = true; written = []; errors = [] }

-- `run` has `on_run` called on the strand of the session.
unfoldable pub on_run : Session → Session
on_run c = record c { pending = some async_accept }

unfoldable pub do_read : Session → Session
do_read c = record c { pending = some async_read }

unfoldable pub on_accept : ErrorCode → Session → Session
unfolding fail do_read
on_accept success c = do_read c
on_accept (error closed message) c = fail message "accept" c

-- `buffer_.consume(buffer_.size())`.
abbrev pub consume : Session → Session
consume c = record c { buffer = "" }

unfoldable pub on_write : ErrorCode → Session → Session
unfolding fail do_read
on_write success c = do_read (consume c)
on_write (error closed message) c = fail message "write" c

-- What a session does not decide when a read ends: how it ended, the message that the stream put
-- behind the contents of the buffer and whether it is text, the random numbers, what the other
-- threads do while the session waits, and how the blocking write ends. `stale` is what stands in
-- the memory of a temporary that is destroyed, when the stream reads it.
pub record Reading (J D : Type 0) : Type 0 where
  pub code : ErrorCode
  pub message : String
  pub is_text : Bool
  pub fuel : ℕ
  pub draws : ℕ → ℕ
  pub others : ℕ → Server J D → Server J D
  pub write_code : ErrorCode
  pub stale : String

-- How the operation that a session waits for ends.
pub data Event (J D : Type 0) : Type 0 where
  accepted : ErrorCode → Event J D
  received : Reading J D → Event J D
  sent : ErrorCode → Event J D

-- The end of `on_read`: the reply is written by `write`, which throws where it fails, and again by
-- `async_write`, whose buffer is a temporary that is destroyed before the stream reads it.
unfoldable pub write_reply : {J D : Type 0} → Reading J D → String → Session → Outcome Session
write_reply r text c = elim r.write_code [
  | error closed message ↦ fault
  | success ↦ done (record c {
    pending = some async_write;
    text_mode = r.is_text;
    written = c.written ++ text ∷ r.stale ∷ [];
  })
]

module _ (J : JsonLib) {D : Type 0} (S : SchemaLib J D) (parse : String → Option J.Json)
    (dump : J.Json → Option String) (zero_time : D) where
  open J use {Json}

  -- `session::on_read` around `on_read`. `dump` throws for a text that is not UTF-8. None says that
  -- the fuel ran out.
  unfoldable pub handle_read :
      Reading Json D → Session → Server Json D → Outcome (Option (Session × Server Json D))
  unfolding fail write_reply
  handle_read r c s = elim r.code [
    | error true message ↦ done (some (c, s))
    | error false message ↦ done (some (fail message "read" c, s))
    | success ↦ do
      reply ← on_read J S parse r.fuel r.draws zero_time r.others c.buffer s
      elim reply [
        | none ↦ done none
        | some (packet, s') ↦ do
          text ← get_value (dump packet)
          c' ← write_reply r text (consume c)
          done (some (c', s'))
      ]
  ]

  -- The stream calls back: the operation is over, and the callback for it runs. An event that the
  -- session does not wait for cannot come.
  unfoldable pub complete :
      Event Json D → Session → Server Json D → Outcome (Option (Session × Server Json D))
  unfolding on_accept on_write handle_read
  complete (accepted code) c s = done (some (on_accept code (record c { pending = none }), s))
  complete (received r) c s =
      handle_read r (record c { pending = none; buffer = join c.buffer r.message }) s
  complete (sent code) c s = done (some (on_write code (record c { pending = none }), s))
