-- ===== src/Socket/Network.antt =====
-- The listener, the sessions and the rest of the server together: callbacks in any order.
use Prim.Native.String.{◌++◌ as join}
use server_unit.Base.{
  ℕ, ◌+◌, ◌*◌, ◌≡◌, ◌⊎◌, refl, inl, inr, Bool, true, false, Option, none, some, String, List, [],
  ◌∷◌, ◌++◌, subst, arith, length, get_elem?, set, All, All-set, All-get_elem?, All-append, done,
  get_value, WhenDone, WhenDone-then, WhenDone-bind, WhenDone-option, length-append,
}
use server_unit.Json.{JsonLib}
use server_unit.Json.Schema.{SchemaLib}
use server_unit.State.{Server}
use server_unit.Socket.{on_read}
use server_unit.Socket.Session.{
  ErrorCode, success, error, Operation, async_accept, async_read, async_write, Session, Reading,
  Event, accepted, received, sent, complete, new_session, on_run, on_accept, on_write, handle_read,
  write_reply, consume, fail, do_read,
}
use server_unit.Socket.Listener.{Listener, do_accept, accept_connection}

pub record Network (J D : Type 0) : Type 0 where
  pub listener : Listener
  pub sessions : List Session
  pub server : Server J D

-- The operation that the event ends.
abbrev pub ends : {J D : Type 0} → Event J D → Operation
ends (accepted code) = async_accept
ends (received r) = async_read
ends (sent code) = async_write

abbrev pub with_session : Option Session → List Session → List Session
with_session none cs = cs
with_session (some c) cs = cs ++ c ∷ []

-- What holds of a session between two callbacks: while an operation is under way the buffer is
-- empty, so that the next message is read alone; what it was given to send are pairs of a reply and
-- of what follows it; and it reports one failure at most, after which it starts nothing.
pub record IsSound (c : Session) : Type 0 where
  pub idle : (c.pending ≡ none) ⊎ (c.buffer ≡ "")
  pub pairs : (k : ℕ) × (length c.written ≡ 2 * k)
  pub quiet : (c.errors ≡ []) ⊎ ((c.pending ≡ none) × (length c.errors ≡ 1))

pub record IsServing {J D : Type 0} (n : Network J D) : Type 0 where
  pub accepting : n.listener.accepting ≡ true
  pub sound : All IsSound n.sessions

code_cases :
    (code : ErrorCode)
    → (code ≡ success) ⊎ ((closed : Bool) × (message : String) × (code ≡ error closed message))
code_cases success = inl refl
code_cases (error closed message) = inr (closed, message, refl)

module _ (J : JsonLib) {D : Type 0} (S : SchemaLib J D) (parse : String → Option J.Json)
    (dump : J.Json → Option String) (zero_time : D) where
  open J use {Json}

  -- A connection comes or fails, an operation of a session ends, or other threads run.
  pub data Step : Network Json D → Network Json D → Type 0 where
    connect :
        {n : Network Json D} (code : ErrorCode)
        → n.listener.accepting ≡ true
        → Step n (record n {
          listener = (accept_connection code n.listener).0;
          sessions = with_session (accept_connection code n.listener).1 n.sessions;
        })
    callback :
        {n : Network Json D} {c c' : Session} {s : Server Json D} (i : ℕ) (e : Event Json D)
        → get_elem? n.sessions i ≡ some c
        → c.pending ≡ some (ends e)
        → complete J S parse dump zero_time e c n.server ≡ done (some (c', s))
        → Step n (record n { sessions = set n.sessions i c'; server = s })
    meanwhile : {n : Network Json D} (s : Server Json D) → Step n (record n { server = s })

  -- From a listener that has just started to accept.
  pub data Reach : Network Json D → Type 0 where
    here :
        (l : Listener) (s : Server Json D)
        → Reach (record { listener = do_accept l; sessions = []; server = s })
    next : {n n' : Network Json D} → Reach n → Step n n' → Reach n'

  abbrev IsSoundAfter : Option (Session × Server Json D) → Type 0
  IsSoundAfter none = Unit
  IsSoundAfter (some r) = IsSound r.0

  fail-IsSound :
      (message what : String) (c : Session)
      → (k : ℕ) × (length c.written ≡ 2 * k)
      → c.errors ≡ []
      → c.pending ≡ none
      → IsSound (fail message what c)
  unfolding fail
  fail-IsSound message what c pairs quiet over = record {
    idle = inl over;
    pairs = pairs;
    quiet = inr (over, rw quiet refl);
  }

  write_reply-IsSound :
      (r : Reading Json D) (text : String) (c : Session)
      → (k : ℕ) × (length c.written ≡ 2 * k)
      → c.errors ≡ []
      → WhenDone IsSound (write_reply r text (consume c))
  unfolding write_reply
  write_reply-IsSound r text c (k, even) quiet = elim (code_cases r.write_code) [
    | inr (b, m, e) ↦ rw (e, write_reply) tt
    | inl e ↦
        rw (e, write_reply)
          (record {
            idle = inr refl;
            pairs = (k + 1, omega (arith, even, length-append c.written (text ∷ r.stale ∷ [])));
            quiet = inl quiet;
          })
  ]

  handle_read-IsSound :
      (r : Reading Json D) (c : Session) (s : Server Json D)
      → (k : ℕ) × (length c.written ≡ 2 * k)
      → c.errors ≡ []
      → c.pending ≡ none
      → WhenDone IsSoundAfter (handle_read J S parse dump zero_time r c s)
  unfolding handle_read
  handle_read-IsSound r c s pairs quiet over = elim (code_cases r.code) [
    | inr (true, m, e) ↦
        rw (e, handle_read) (record { idle = inl over; pairs = pairs; quiet = inl quiet })
    | inr (false, m, e) ↦ rw (e, handle_read) (fail-IsSound m "read" c pairs quiet over)
    | inl e ↦
        rw (e, handle_read)
          (WhenDone-then IsSoundAfter
            (on_read J S parse r.fuel r.draws zero_time r.others c.buffer s) _
            (λ (reply : Option (Json × Server Json D)).
              WhenDone-option IsSoundAfter reply (done none) _ tt (λ (p : Json × Server Json D).
                WhenDone-then IsSoundAfter (get_value (dump p.0)) _ (λ (text : String).
                  WhenDone-bind IsSound IsSoundAfter (write_reply r text (consume c)) _
                    (write_reply-IsSound r text c pairs quiet) (λ c' h. h)))))
  ]

  -- A session with an operation under way has an empty buffer and has reported nothing.
  under_way :
      (c : Session) (o : Operation)
      → IsSound c
      → c.pending ≡ some o
      → (c.buffer ≡ "") × (c.errors ≡ [])
  under_way c o h busy = (ground (arith, h.idle), ground (arith, h.quiet))

  complete-IsSound :
      (e : Event Json D) (c : Session) (s : Server Json D)
      → IsSound c
      → c.pending ≡ some (ends e)
      → WhenDone IsSoundAfter (complete J S parse dump zero_time e c s)
  unfolding complete on_accept on_write do_read
  complete-IsSound (accepted success) c s h busy = record {
    idle = inr (under_way c async_accept h busy).0;
    pairs = h.pairs;
    quiet = inl (under_way c async_accept h busy).1;
  }
  complete-IsSound (accepted (error closed message)) c s h busy =
      fail-IsSound message "accept" (record c { pending = none }) h.pairs
        (under_way c async_accept h busy).1 refl
  complete-IsSound (received r) c s h busy =
      handle_read-IsSound r (record c { pending = none; buffer = join c.buffer r.message }) s
        h.pairs (under_way c async_read h busy).1 refl
  complete-IsSound (sent success) c s h busy = record {
    idle = inr refl;
    pairs = h.pairs;
    quiet = inl (under_way c async_write h busy).1;
  }
  complete-IsSound (sent (error closed message)) c s h busy =
      fail-IsSound message "write" (record c { pending = none }) h.pairs
        (under_way c async_write h busy).1 refl

  new_session-IsSound : IsSound (on_run new_session)
  unfolding on_run
  new_session-IsSound = record { idle = inr refl; pairs = (0, refl); quiet = inl refl }

  connect-IsServing :
      (code : ErrorCode) (n : Network Json D)
      → IsServing n
      → IsServing (record n {
        listener = (accept_connection code n.listener).0;
        sessions = with_session (accept_connection code n.listener).1 n.sessions;
      })
  unfolding accept_connection do_accept
  connect-IsServing success n h = record {
    accepting = refl;
    sound =
        All-append IsSound n.sessions (on_run new_session ∷ []) h.sound (new_session-IsSound, tt);
  }
  connect-IsServing (error closed message) n h = record { accepting = refl; sound = h.sound }

  Step-IsServing : {n n' : Network Json D} → Step n n' → IsServing n → IsServing n'
  Step-IsServing (connect {n} code free) h = connect-IsServing code n h
  Step-IsServing (callback {n} {c} {c'} {s} i e there busy over) h =
      let sound =
        subst (WhenDone IsSoundAfter) over
          (complete-IsSound e c n.server (All-get_elem? IsSound n.sessions i h.sound there) busy) in
      record { accepting = h.accepting; sound = All-set IsSound n.sessions i c' h.sound sound }
  Step-IsServing (meanwhile s) h = record { accepting = h.accepting; sound = h.sound }

  -- In every state that the callbacks reach in any order, however connections, reads and writes end
  -- and whatever other threads do, the listener accepts, and of each session: while an operation is
  -- under way the buffer is empty, so that the next message is read alone; what it was given to send
  -- are pairs; and it has reported at most one failure, after which nothing is under way.
  pub Reach-IsServing : {n : Network Json D} → Reach n → IsServing n
  unfolding do_accept
  Reach-IsServing (here l s) = record { accepting = refl; sound = tt }
  Reach-IsServing (next r st) = Step-IsServing st (Reach-IsServing r)
