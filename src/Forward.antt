-- ===== src/Forward.antt =====
-- A round of `routeTunToClients` (src/server/contexts/sessionscontrol.cpp) up to the peer that a packet
-- goes to. The buffer is given by the bytes of the packet and by what it holds behind them.
pub mod Owner
mod Tests
use vpverk.Base.{
  ℕ, zero, suc, ◌+◌, ◌*◌, ◌/◌, Bool, true, false, not, ◌&&◌, Option, none, some, List, [], ◌∷◌,
  length, get_elem?, ◌==◌, if◌then◌else◌,
}
use vpverk.Effect.{Outcome, ok, throw, abort, unfinished}
use vpverk.Router.{Peer, Route, Router, lookup, empty_queue}

-- The byte `i` of the buffer from the packet on; `behind` gives those that the packet does not fill.
abbrev pub packet_byte : (ℕ → ℕ) → ℕ → List ℕ → ℕ
packet_byte behind i p = elim (get_elem? p i) [ none ↦ behind i | some b ↦ b ]

-- `dst`: the bytes 16 to 19, the first one highest
abbrev pub destination : (ℕ → ℕ) → List ℕ → ℕ
destination behind p =
    packet_byte behind 16 p * 16777216
    + packet_byte behind 17 p * 65536
    + packet_byte behind 18 p * 256
    + packet_byte behind 19 p

-- `(first byte & 0xf0) >> 4`
abbrev pub ip_version : (ℕ → ℕ) → List ℕ → ℕ
ip_version behind p = packet_byte behind 0 p / 16

-- The check of the bytes: it takes the last two of the destination, and hands a text to `cuabort`.
pub probe_packet : (ℕ → ℕ) → List ℕ → Outcome (Unit {0})
probe_packet behind p = abort (
    if packet_byte behind 18 p == 10 && packet_byte behind 19 p == 123
    then "like this2"
    else "not like this2")

-- The `continue` of a round, or the packet on its way to a peer.
pub data Decision : Type 0 where
  skip : Decision
  deliver : Peer → List ℕ → Decision

unfoldable pub to_peer : Option Peer → List ℕ → Decision
to_peer none p = skip
to_peer (some v) p = deliver v p

-- What follows `emptyQueue`, with the check as a parameter. An empty packet is a timeout of the read.
unfoldable pub decide : (ℕ → ℕ) → (List ℕ → Outcome (Unit {0})) → List ℕ → Router → Outcome Decision
unfolding to_peer
decide behind check p m =
    if length p == 0
    then ok skip
    else if not (ip_version behind p == 4)
    then ok skip
    else elim (check p) [
      | ok _ ↦ ok (to_peer (lookup (destination behind p) m) p)
      | throw e ↦ throw e
      | abort t ↦ abort t
      | unfinished ↦ unfinished
    ]

-- The round; none if `emptyQueue` does not end.
unfoldable pub forward :
    (ℕ → ℕ)
    → (List ℕ → Outcome (Unit {0}))
    → List (Option Route)
    → List ℕ
    → Router
    → Option (Outcome Decision × Router)
forward behind check pops p m = elim (empty_queue pops m) [
  | none ↦ none
  | some (m', dropped) ↦ some (decide behind check p m', m')
]
