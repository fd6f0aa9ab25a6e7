-- ===== src/Expiry/Rounds.antt =====
-- A round of the timer in which every packet was seen.
use mathlib.Core.Option
use server_unit.Base.{
  ℕ, sem_post, ◌≡◌, refl, ap, Bool, true, false, some, List, [], ◌∷◌, arith, contains, All, ◌==◌,
  if◌then◌else◌, done, Returns, Returns-bind, Returns-weaken, update,
}
use server_unit.Task.{data_final, status_code}
use server_unit.Timeout.{Timeout}
use server_unit.Worker.{OutPacket, OutgoingDataState}
use server_unit.State.{Server}
use server_unit.Expiry.{check_out_packet, expire_packet, expire_packets, execute}

-- No address stands twice in the list.
abbrev pub Distinct : List ℕ → Type 0
Distinct [] = Unit
Distinct (p ∷ ps) = (contains p ps ≡ false) × Distinct ps

module _ {J D : Type 0} where
  -- The packet at the address is checked in, and its data is not final.
  abbrev pub Seen : Server J D → ℕ → Type 0
  Seen s p =
      (o : OutPacket J) × (d : OutgoingDataState) × (s.packets p ≡ some o)
      × (s.outgoing.states o.out_data ≡ some d)
      × (o.status ≡ record { flag = true })
      × ((status_code d.task_status == status_code data_final) ≡ false)

  abbrev checked_out : ℕ → OutPacket J → Server J D → Server J D
  checked_out p o s = record s { packets = update s.packets p (some (check_out_packet o)) }

  Seen-checked_out :
      (s : Server J D) (p : ℕ) (o : OutPacket J) (ps : List ℕ)
      → All (Seen s) ps
      → contains p ps ≡ false
      → All (Seen (checked_out p o s)) ps
  Seen-checked_out s p o [] h c = tt
  Seen-checked_out s p o (q ∷ ps) ((o', d, live, known, seen, ongoing), h) c =
      ((o', d, ground arith, known, seen, ongoing), Seen-checked_out s p o ps h (ground arith))

  expire_packet-Seen :
      (s : Server J D) (p : ℕ) (o : OutPacket J) (e : OutgoingDataState)
      → s.packets p ≡ some o
      → s.outgoing.states o.out_data ≡ some e
      → o.status ≡ record { flag = true }
      → (status_code e.task_status == status_code data_final) ≡ false
      → expire_packet p s ≡ done (true, checked_out p o s)
  unfolding expire_packet
  expire_packet-Seen s p o e live known seen ongoing = ground arith

  -- The server while the timer holds its lock.
  abbrev taken : Server J D → Server J D
  taken s = record s { timeout = record s.timeout { timeout_list_lock = 0 } }

  -- What the round leaves of the packet at `q`, and that all else is as it was.
  abbrev After : ℕ → List ℕ → Server J D → Bool × Server J D → Type 0
  After q ps s (b, t) =
      (b ≡ true)
      × (t.packets q
          ≡ (if contains q ps then Option.map check_out_packet (s.packets q) else s.packets q))
      × (t.timeout ≡ s.timeout)
      × (t.registry ≡ s.registry)
      × (t.outgoing ≡ s.outgoing)

  expire_packets-After :
      (q : ℕ) (ps : List ℕ) (s : Server J D)
      → All (Seen s) ps
      → Distinct ps
      → Returns (After q ps s) (expire_packets ps s)
  unfolding expire_packets
  expire_packets-After q [] s h d = (refl, refl, refl, refl, refl)
  expire_packets-After q (p ∷ ps) s ((o, e, live, known, seen, ongoing), h) (c, d) =
      rw (expire_packet-Seen s p o e live known seen ongoing) (
        Returns-weaken (After q ps (checked_out p o s)) (After q (p ∷ ps) s)
          (expire_packets ps (checked_out p o s))
          (expire_packets-After q ps (checked_out p o s) (Seen-checked_out s p o ps h c) d)
          (λ r k. (k.0, ground arith, k.2, k.3, k.4)))

  -- If all timed packets are checked in, none with final data and none twice, and the timer is
  -- free, the timer returns: each timed packet is checked out and any other packet as it was, and
  -- so are the timer, the workers and the data.
  pub execute-checks_out :
      (s : Server J D) (q : ℕ)
      → All (Seen s) s.timeout.timed_packets
      → Distinct s.timeout.timed_packets
      → s.timeout.timeout_list_lock ≡ 1
      → Returns
          (λ s'.
            (s'.packets q ≡ (
              if contains q s.timeout.timed_packets
              then Option.map check_out_packet (s.packets q)
              else s.packets q))
            × (s'.timeout ≡ s.timeout)
            × (s'.registry ≡ s.registry)
            × (s'.outgoing ≡ s.outgoing))
          (execute s)
  unfolding execute
  execute-checks_out s q h d free = rw free (
      Returns-bind (After q s.timeout.timed_packets (taken s)) _
        (expire_packets s.timeout.timed_packets (taken s)) _
        (expire_packets-After q s.timeout.timed_packets (taken s) h d)
        (λ r k. rw k.0 (
          k.1,
          ap (λ (t : Timeout). record t { timeout_list_lock = sem_post t.timeout_list_lock }) k.2,
          k.3,
          k.4,
        )))
