-- ===== src/Forward/Owner.antt =====
-- To whom a packet goes.
use vpverk.Base.{
  ℕ, String, ◌&&◌, ◌^◌, ◌<◌, ◌≡◌, true, false, Option, some, List, length, arith, ◌==◌,
  if◌then◌else◌, Option-cases, inl, inr, ◌⊎◌,
}
use vpverk.Effect.{Outcome, ok, abort}
use vpverk.Router.{Peer, Route, Router, lookup, empty_queue}
use vpverk.Router.Counts.{popped}
use vpverk.Router.Balance.{empty_queue-IsBalanced}
use vpverk.Router.Origin.{Requested, empty_queue-Comes}
use vpverk.Forward.{
  Decision, deliver, decide, forward, to_peer, destination, ip_version, probe_packet, packet_byte,
}

decide_deliver :
    (behind : ℕ → ℕ) (check : List ℕ → Outcome (Unit {0})) (p x : List ℕ) (m : Router) (v : Peer)
    → decide behind check p m ≡ ok (deliver v x)
    → (x ≡ p) × (ip_version behind p ≡ 4) × (lookup (destination behind p) m ≡ some v)
unfolding decide to_peer
decide_deliver behind check p x m v e = ground arith

first_of :
    (a c : Outcome Decision) (b d : Router)
    → Path (Option (Outcome Decision × Router)) (some (a, b)) (some (c, d))
    → a ≡ c
first_of a c b d h = cc

-- A round hands over the packet that was read, unchanged and of version 4, and only to a peer that
-- had its destination as an address before, or asked for just that address in a request of the queue.
forward-Requested :
    (behind : ℕ → ℕ) (check : List ℕ → Outcome (Unit {0})) (pops : List (Option Route))
    (p x : List ℕ) (m m' : Router) (v : Peer)
    → forward behind check pops p m ≡ some (ok (deliver v x), m')
    → (x ≡ p)
      × (ip_version behind p ≡ 4)
      × ((lookup (destination behind p) m ≡ some v)
          ⊎ Requested (destination behind p) v (popped pops))
unfolding forward
forward-Requested behind check pops p x m m' v e = elim (Option-cases (empty_queue pops m)) [
  | inl n ↦ absurd (ground (arith, n))
  | inr ((m1, dropped), q) ↦
      let h : some (decide behind check p m1, m1) ≡ some (ok (deliver v x), m') =
        rw (forward, q) at e in
      let d : decide behind check p m1 ≡ ok (deliver v x) = first_of _ _ _ _ h in
      let (same, four, found) = decide_deliver behind check p x m1 v d in
      (same, four, empty_queue-Comes pops m m1 dropped q (destination behind p) v found)
]

-- With the check that is in the code, a round on a packet of version 4 aborts, whatever the router
-- holds, the queue yields (fewer than 2 ^ 32 requests) and the buffer holds behind the packet: no
-- such packet is routed.
pub forward_aborts :
    (behind : ℕ → ℕ) (pops : List (Option Route)) (p : List ℕ) (m : Router)
    → length (popped pops) < 2 ^ 32
    → (length p == 0) ≡ false
    → ip_version behind p ≡ 4
    → (text : String) × (m' : Router) × (forward behind (probe_packet behind) pops p m
        ≡ some (abort text, m'))
unfolding forward decide probe_packet
forward_aborts behind pops p m few some_bytes four =
    let (m1, dropped, q, balanced) = empty_queue-IsBalanced pops m few in
    let v : (ip_version behind p == 4) ≡ true = ground arith in
    (
      if packet_byte behind 18 p == 10 && packet_byte behind 19 p == 123
          then "like this2"
          else "not like this2",
      m1,
      rw (forward, q, decide, some_bytes, v),
    )
