-- ===== src/Socket/Endpoint.antt =====
-- What `startSocket` starts, and what becomes of a listener whose acceptor could not be set up.
use server_unit.Base.{
  ℕ, zero, suc, ◌+◌, ◌-◌, ◌≤◌, ◌<◌, ◌≡◌, ◌⊎◌, refl, inl, inr, true, false, Option, some, String,
  List, [], ◌∷◌, arith, length, length-append, All, done, ◌∙◌, get_value, ap,
}
use server_unit.Base.Int.{ℤ, pos, negsuc}
use server_unit.Socket.Session.{ErrorCode, success, error, Session, error_line}
use server_unit.Socket.Listener.{
  Listener, Service, new_listener, accept_connection, do_accept, to_unsigned_short, at_least_one,
  start_threads, start_socket, report,
}
use server_unit.Socket.Network.{with_session}

start_threads-eq : (i started : ℕ) → start_threads i started ≡ started + i
unfolding start_threads
start_threads-eq zero started = omega arith
start_threads-eq (suc i) started = omega (arith, start_threads-eq i (started + 1))

at_least_one-pos : (n : ℤ) → 1 ≤ at_least_one n
unfolding at_least_one
at_least_one-pos (pos n) = ground arith
at_least_one-pos (negsuc n) = omega arith

to_unsigned_short-lt : (n : ℤ) → to_unsigned_short n < 65536
unfolding to_unsigned_short
to_unsigned_short-lt (pos n) = omega arith
to_unsigned_short-lt (negsuc n) = omega arith

to_unsigned_short-pos : (n : ℕ) → n < 65536 → to_unsigned_short (pos n) ≡ n
unfolding to_unsigned_short
to_unsigned_short-pos n lt = omega arith

at_least_one-suc : (n : ℕ) → at_least_one (pos (suc n)) ≡ suc n
unfolding at_least_one
at_least_one-suc n = ground arith

running_lem : (k : ℕ) → 1 ≤ k → start_threads (k - 1) 0 + 1 ≡ k
running_lem k h = omega (arith, start_threads-eq (k - 1) 0)

abbrev pub IsError : ErrorCode → Type 0
IsError success = ⊥
IsError (error closed message) = Unit

-- The connections that come or fail, one after the other.
unfoldable pub accept_all : List ErrorCode → Listener × List Session → Listener × List Session
accept_all [] n = n
accept_all (code ∷ codes) n =
    let r = accept_connection code n.0 in accept_all codes (r.0, with_session r.1 n.1)

-- An address that can be read is served at the port that was asked for, if it is a port, and at its
-- remainder by 65536 if it is another number. As many threads run the callbacks as the service is
-- told to expect: the number that was asked for, but at least one.
pub start_socket-runs :
    {A : Type 0} (make_address : String → Option A)
    (codes : A → ℕ → ErrorCode × ErrorCode × ErrorCode × ErrorCode) (input : String) (address : A)
    (port threads : ℤ)
    → make_address input ≡ some address
    → (v : Service A) × (start_socket make_address codes input port threads ≡ done v)
      × (v.address ≡ address)
      × (v.port < 65536)
      × ((n : ℕ) → port ≡ pos n → n < 65536 → v.port ≡ n)
      × (v.running ≡ v.concurrency)
      × (1 ≤ v.running)
      × ((n : ℕ) → threads ≡ pos (suc n) → v.running ≡ suc n)
      × (v.listener.accepting ≡ true)
unfolding start_socket do_accept
start_socket-runs make_address codes input address port threads e =
    let u = to_unsigned_short port in
    let c = codes address u in
    let k = at_least_one threads in
    (
      record {
        address = address;
        port = u;
        concurrency = k;
        running = start_threads (k - 1) 0 + 1;
        listener = do_accept (new_listener c.0 c.1 c.2 c.3);
      },
      rw (e, get_value) refl,
      refl,
      to_unsigned_short-lt port,
      λ n is lt. rw is (to_unsigned_short-pos n lt),
      running_lem k (at_least_one-pos threads),
      omega arith,
      λ n is. running_lem k (at_least_one-pos threads) ∙ rw is (at_least_one-suc n),
      refl,
    )

-- Either all four steps succeed and nothing is reported, or one fails and it alone is reported.
new_listener-cases :
    (opened allowed bound listens : ErrorCode)
    → (((new_listener opened allowed bound listens).listening ≡ true)
        × ((new_listener opened allowed bound listens).errors ≡ []))
      ⊎ (((new_listener opened allowed bound listens).listening ≡ false)
          × (length (new_listener opened allowed bound listens).errors ≡ 1))
unfolding new_listener
new_listener-cases (error _ m) allowed bound listens = inr (refl, refl)
new_listener-cases success (error _ m) bound listens = inr (refl, refl)
new_listener-cases success success (error _ m) listens = inr (refl, refl)
new_listener-cases success success success (error _ m) = inr (refl, refl)
new_listener-cases success success success success = inl (refl, refl)

one_line :
    (opened allowed bound listens : ErrorCode)
    → (new_listener opened allowed bound listens).listening ≡ false
    → length (new_listener opened allowed bound listens).errors ≡ 1
one_line opened allowed bound listens off = elim (new_listener-cases opened allowed bound listens) [
  | inl (on, _) ↦ cc
  | inr (_, one) ↦ one
]

one_more :
    (message : String) (l : Listener) (n : ℕ)
    → length (do_accept (report message "accept" l)).errors + n ≡ length l.errors + suc n
unfolding do_accept
one_more message l n = omega (arith, length-append l.errors (error_line "accept" message ∷ []))

accept_all-errors :
    (failures : List ErrorCode) (l : Listener) (cs : List Session)
    → All IsError failures
    → l.accepting ≡ true
    → ((accept_all failures (l, cs)).1 ≡ cs)
      × (length (accept_all failures (l, cs)).0.errors ≡ length l.errors + length failures)
      × ((accept_all failures (l, cs)).0.accepting ≡ true)
unfolding accept_all accept_connection do_accept
accept_all-errors [] l cs h a = (refl, omega arith, a)
accept_all-errors (success ∷ codes) l cs h a = absurd h.0
accept_all-errors (error closed message ∷ codes) l cs h a =
    let (same, lines, accepts) =
      accept_all-errors codes (do_accept (report message "accept" l)) cs h.1 refl in
    (same, lines ∙ one_more message l (length codes), accepts)

-- If a step of the constructor fails, `startSocket` runs the service all the same. As an acceptor
-- that does not listen refuses every accept, the listener starts another after each: it never stops,
-- opens no session, and reports one line for each attempt.
pub new_listener-refused :
    (opened allowed bound listens : ErrorCode) (failures : List ErrorCode) (cs : List Session)
    → (new_listener opened allowed bound listens).listening ≡ false
    → All IsError failures
    → let after = accept_all failures (do_accept (new_listener opened allowed bound listens), cs) in
      (after.1 ≡ cs) × (length after.0.errors ≡ 1 + length failures) × (after.0.accepting ≡ true)
unfolding do_accept
new_listener-refused opened allowed bound listens failures cs off h =
    let l = new_listener opened allowed bound listens in
    let (same, lines, accepts) = accept_all-errors failures (do_accept l) cs h refl in
    (
      same,
      lines ∙ ap (λ (k : ℕ). k + length failures) (one_line opened allowed bound listens off),
      accepts,
    )
