-- ===== src/Router.antt =====
-- `tunRouter` and `SessionsControl::emptyQueue` (src/server/contexts/sessionscontrol.cpp), with the
-- requests of src/server/atomic_queue_type.hpp. The lock-free queue is not under the sources: what its
-- `try_pop` yields until `was_empty` holds is an argument, `none` for a pop that fails.
pub mod Counts
mod Drain
pub mod Retry
pub mod Balance
pub mod Bag
pub mod Origin
mod Tests
use vpverk.Base.{
  ℕ, zero, suc, ◌+◌, ◌-◌, ◌%◌, ◌^◌, ltb, Bool, true, false, ◌||◌, not, Option, none, some, List, [],
  ◌∷◌, ◌++◌, ◌==◌, if◌then◌else◌, length,
}

-- The two shared pointers of a route, by the objects that they name; `none` is null.
pub record Peer : Type 0 where
  pub con : ℕ
  pub aes : Option ℕ

-- `aq_route`
pub record Route : Type 0 where
  pub add_or_remove : Bool
  pub addr : ℕ
  pub peer : Peer

abbrev pub Router : Type 0
Router = List (ℕ × Peer)

unfoldable pub lookup : ℕ → Router → Option Peer
lookup a [] = none
lookup a ((b, v) ∷ m) = if b == a then some v else lookup a m

-- `tunRouter.contains`
unfoldable pub registered : ℕ → Router → Bool
registered a [] = false
registered a ((b, v) ∷ m) = b == a || registered a m

unfoldable pub erase : ℕ → Router → Router
erase a [] = []
erase a ((b, v) ∷ m) = let rest = erase a m in if b == a then rest else (b, v) ∷ rest

-- One request: the router after it, or `none` where the code puts the request back.
unfoldable pub apply : Router → Route → Option Router
apply m r =
    if r.add_or_remove
    then (if registered r.addr m then none else some ((r.addr, r.peer) ∷ m))
    else (if registered r.addr m then some (erase r.addr m) else none)

-- The first loop: pops of `tunQueue`, with `local_handle` as the last argument.
unfoldable pub drain : List (Option Route) → Router → List Route → Router × List Route
drain [] m kept = (m, kept)
drain (none ∷ pops) m kept = drain pops m kept
drain (some r ∷ pops) m kept = elim (apply m r) [
  | some m' ↦ drain pops m' kept
  | none ↦ drain pops m (kept ++ r ∷ [])
]

-- The for loop of a retry, with its `uint i`, which wraps: each request of `local_handle` is dropped or
-- pushed back. There is no result if the fuel runs out, or `front` is taken of an empty queue.
unfoldable pub pass : ℕ → ℕ → ℕ → Router → List Route → Option (Router × List Route)
pass zero i size m kept = none
pass (suc fuel) i size m [] = if ltb i size then none else some (m, [])
pass (suc fuel) i size m (r ∷ kept) = elim (ltb i size) [
  | false ↦ some (m, r ∷ kept)
  | true ↦ elim (apply m r) [
    | some m' ↦ pass fuel ((i + 1) % 2 ^ 32) size m' kept
    | none ↦ pass fuel ((i + 1) % 2 ^ 32) size m (kept ++ r ∷ [])
  ]
]

-- `size_t size = -1`
abbrev pub no_size : ℕ
no_size = 2 ^ 64 - 1

-- The do-while loop: the router, and the requests that the error branch deletes. The outer `none`
-- is fuel that ran out. A for loop that ends has one step more than there are requests.
pub retry : ℕ → ℕ → ℕ → Router → List Route → Option (Router × List Route)
unfolding pass
retry zero prev size m kept = none
retry (suc fuel) prev size m kept =
    if prev == size
    then some (m, kept)
    else elim (pass (suc (length kept)) 0 (length kept) m kept) [
      | none ↦ none
      | some (m', kept') ↦
          let rest = retry fuel size (length kept') m' kept' in
          if length kept' == 0 then some (m', []) else rest
    ]

-- Three rounds more than there are requests kept are enough.
unfoldable pub settle : Router → List Route → Option (Router × List Route)
settle m [] = some (m, [])
settle m (r ∷ kept) = let n = length (r ∷ kept) in retry (suc (suc (suc n))) n no_size m (r ∷ kept)

unfoldable pub empty_queue : List (Option Route) → Router → Option (Router × List Route)
empty_queue pops m = let (m', kept) = drain pops m [] in settle m' kept
