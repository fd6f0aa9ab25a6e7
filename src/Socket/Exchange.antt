-- ===== src/Socket/Exchange.antt =====
-- What a session sends for the messages that it gets.
use Prim.Native.String.{◌++◌ as join}
use text.Mathlib.TextLemmas.{nil-append}
use server_unit.Base.{
  ◌≡◌, refl, sym, ◌∙◌, Option, none, some, String, List, [], ◌∷◌, ◌++◌, append_assoc, append-nil,
  Outcome, done, get_value, ◌>>=◌,
}
use server_unit.Json.{JsonLib}
use server_unit.Json.Schema.{SchemaLib}
use server_unit.State.{Server}
use server_unit.Socket.{on_read}
use server_unit.Socket.Session.{
  success, async_read, async_write, Session, Reading, Event, received, sent, write_reply,
  handle_read, complete,
}

-- Other threads run, and then an operation of the session ends.
pub record Turn (J D : Type 0) : Type 0 where
  pub meanwhile : Server J D → Server J D
  pub event : Event J D

-- A message is read and the reply sent, with what other threads do before each.
pub record Exchange (J D : Type 0) : Type 0 where
  pub before_read : Server J D → Server J D
  pub reading : Reading J D
  pub before_sent : Server J D → Server J D

pub turns_of : {J D : Type 0} → List (Exchange J D) → List (Turn J D)
turns_of [] = []
turns_of (x ∷ xs) =
    record { meanwhile = x.before_read; event = received x.reading }
    ∷ record { meanwhile = x.before_sent; event = sent success }
    ∷ turns_of xs

-- The session waits for a message.
pub record Awaits (c : Session) : Type 0 where
  pub reads : c.pending ≡ some async_read
  pub empty : c.buffer ≡ ""

module _ (J : JsonLib) {D : Type 0} (S : SchemaLib J D) (parse : String → Option J.Json)
    (dump : J.Json → Option String) (zero_time : D) where
  open J use {Json}

  unfoldable pub serve :
      List (Turn Json D) → Session → Server Json D → Outcome (Option (Session × Server Json D))
  serve [] c s = done (some (c, s))
  serve (t ∷ ts) c s = do
    r ← complete J S parse dump zero_time t.event c (t.meanwhile s)
    elim r [ none ↦ done none | some (c', s') ↦ serve ts c' s' ]

  -- The server `s` replies to the messages one after the other, which leaves the server `s'`; each
  -- reply is followed by what the stream finds in the memory of the temporary.
  pub data Replies
      : List (Exchange Json D) → List String → Server Json D → Server Json D → Type 0 where
    last : {s : Server Json D} → Replies [] [] s s
    next :
        {x : Exchange Json D} {xs : List (Exchange Json D)} {texts : List String}
        {s s₁ s' : Server Json D} (packet : Json) (text : String)
        → x.reading.code ≡ success
        → x.reading.write_code ≡ success
        → on_read J S parse x.reading.fuel x.reading.draws zero_time x.reading.others
            x.reading.message
            (x.before_read s)
          ≡ done (some (packet, s₁))
        → dump packet ≡ some text
        → Replies xs texts (x.before_sent s₁) s'
        → Replies (x ∷ xs) (text ∷ x.reading.stale ∷ texts) s s'

  abbrev answered : Reading Json D → String → Session → Session
  answered r text c = record c {
    buffer = "";
    pending = some async_write;
    text_mode = r.is_text;
    written = c.written ++ text ∷ r.stale ∷ [];
  }

  handle_read-success :
      (r : Reading Json D) (c : Session) (s s' : Server Json D) (packet : Json) (text : String)
      → r.code ≡ success
      → r.write_code ≡ success
      → on_read J S parse r.fuel r.draws zero_time r.others c.buffer s ≡ done (some (packet, s'))
      → dump packet ≡ some text
      → handle_read J S parse dump zero_time r c s ≡ done (some (answered r text c, s'))
  unfolding handle_read write_reply
  handle_read-success r c s s' packet text ok wrote replied dumped =
      rw ok (rw replied (rw (dumped, get_value) (rw (wrote, write_reply) refl)))

  complete-received :
      (r : Reading Json D) (c : Session) (s s' : Server Json D) (packet : Json) (text : String)
      → Awaits c
      → r.code ≡ success
      → r.write_code ≡ success
      → on_read J S parse r.fuel r.draws zero_time r.others r.message s ≡ done (some (packet, s'))
      → dump packet ≡ some text
      → complete J S parse dump zero_time (received r) c s ≡ done (some (answered r text c, s'))
  unfolding complete
  complete-received r c s s' packet text a ok wrote replied dumped =
      handle_read-success r (record c { pending = none; buffer = join c.buffer r.message }) s s'
        packet text ok wrote (rw a.empty (rw (nil-append r.message) replied)) dumped

  serve_next :
      (t : Turn Json D) (ts : List (Turn Json D)) (c c' : Session) (s s' : Server Json D)
      → complete J S parse dump zero_time t.event c (t.meanwhile s) ≡ done (some (c', s'))
      → serve (t ∷ ts) c s ≡ serve ts c' s'
  unfolding serve
  serve_next t ts c c' s s' e = rw e refl

  abbrev waiting : Reading Json D → String → Session → Session
  waiting r text c = record (answered r text c) { pending = some async_read }

  complete-sent :
      (r : Reading Json D) (text : String) (c : Session) (s : Server Json D)
      → complete J S parse dump zero_time (sent success) (answered r text c) s
        ≡ done (some (waiting r text c, s))
  unfolding complete
  complete-sent r text c s = refl

  -- From a session that waits for a message, if the server replies to the messages in turn and no
  -- operation fails, then all callbacks return, the server is as the replies leave it, nothing is
  -- reported, and the session waits for the next message with an empty buffer. What it was given to
  -- send is each reply once, and behind each what stood in the memory of the destroyed temporary.
  pub serve-Replies :
      (xs : List (Exchange Json D)) (texts : List String) (c : Session) (s s' : Server Json D)
      → Awaits c
      → Replies xs texts s s'
      → (c' : Session) × (serve (turns_of xs) c s ≡ done (some (c', s')))
        × Awaits c'
        × (c'.written ≡ c.written ++ texts)
        × (c'.errors ≡ c.errors)
  unfolding serve turns_of
  serve-Replies _ _ c s s' a last = (c, refl, a, sym (append-nil c.written), refl)
  serve-Replies _ _ c s s' a
        (next {x} {xs} {texts} {s₁ = s₁} packet text ok wrote replied dumped rest) =
      let r = x.reading in
      let read : Turn Json D = record { meanwhile = x.before_read; event = received r } in
      let written : Turn Json D = record { meanwhile = x.before_sent; event = sent success } in
      let (c', served, waits, texts', quiet) =
        serve-Replies xs texts (waiting r text c) (x.before_sent s₁) s'
          (record { reads = refl; empty = refl }) rest in
      (
        c',
        serve_next read (written ∷ turns_of xs) c (answered r text c) s s₁
              (complete-received r c (x.before_read s) s₁ packet text a ok wrote replied dumped)
            ∙ serve_next written (turns_of xs) (answered r text c) (waiting r text c) s₁
                (x.before_sent s₁) (complete-sent r text c (x.before_sent s₁))
            ∙ served,
        waits,
        texts' ∙ append_assoc c.written (text ∷ r.stale ∷ []) texts,
        quiet,
      )
