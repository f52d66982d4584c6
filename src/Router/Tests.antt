-- ===== src/Router/Tests.antt =====
-- Runs of `emptyQueue`, and the theorems at them.
use vpverk.Base.{ℕ, ◌≡◌, refl, arith, true, false, List, [], ◌∷◌, Option, some, none}
use vpverk.Router.{
  Peer, Route, Router, registered, erase, apply, drain, pass, retry, settle, empty_queue,
}
use vpverk.Router.Counts.{popped}
use vpverk.Router.Balance.{IsBalanced, empty_queue-IsBalanced}

abbrev first_peer : Peer
first_peer = record { con = 1; aes = some 11 }

abbrev second_peer : Peer
second_peer = record { con = 2; aes = some 12 }

abbrev adds_at : ℕ → Peer → Route
adds_at a v = record { add_or_remove = true; addr = a; peer = v }

abbrev removes_at : ℕ → Peer → Route
removes_at a v = record { add_or_remove = false; addr = a; peer = v }

-- The address 7 passes from the first peer to the second; the requests come in the wrong order,
-- with one pop that fails, and with a removal of an address that nobody has.
abbrev swapped : List (Option Route)
swapped =
    some (adds_at 7 second_peer)
    ∷ none
    ∷ some (removes_at 9 first_peer)
    ∷ some (removes_at 7 first_peer)
    ∷ []

abbrev before : Router
before = (7, first_peer) ∷ []

empty_queue-swapped :
    empty_queue swapped before ≡ some ((7, second_peer) ∷ [], removes_at 9 first_peer ∷ [])
unfolding empty_queue drain settle retry pass apply registered erase
empty_queue-swapped = refl

empty_queue-IsBalanced_example :
    (m' : Router) × (dropped : List Route) × (empty_queue swapped before ≡ some (m', dropped))
    × ((a : ℕ) → IsBalanced a before (popped swapped) m' dropped)
unfolding popped
empty_queue-IsBalanced_example = empty_queue-IsBalanced swapped before (omega arith)

-- The same requests, the other way round
abbrev in_turn : List (Option Route)
in_turn =
    some (removes_at 7 first_peer)
    ∷ some (removes_at 9 first_peer)
    ∷ some (adds_at 7 second_peer)
    ∷ []
