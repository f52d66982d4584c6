-- ===== src/Sessions.antt =====
-- Any number of sessions of `startConnection` and the loop of `routeTunToClients`
-- (src/server/contexts/sessionscontrol.cpp) over the pool of addresses, the queue of requests and the router.
-- A step is one access of a session to what is shared, or one `emptyQueue`.
mod Applies
mod Apart
mod Routed
pub mod Sound
mod Moves
pub mod Serves
pub mod Delivery
mod Tests
use vpverk.Base.{ℕ, Bool, true, false, Option, none, some, List, [], ◌∷◌, ◌++◌, map, if◌then◌else◌}
use vpverk.Effect.{Outcome, ok, throw, abort, unfinished}
use vpverk.Address.{AddressPool, allot, rounds, release}
use vpverk.Router.{Peer, Route, Router, empty_queue}
use vpverk.Lifecycle.{Shared, try_push}
use vpverk.Schedule.{System}

-- What the sessions share, with the router.
pub record World : Type 0 where
  pub shared : Shared
  pub router : Router

-- Where a session stands: without an address; with one; with its request to add the route in the queue,
-- or carried out; with its request to remove it there.
pub data Stage : Type 0 where
  outside : Stage
  holds : ℕ → Stage
  routed : ℕ → Peer → Stage
  unrouted : ℕ → Stage

-- What happens next: a session takes an address, adds its route, leaves, fails before it has added its
-- route, gives its address back; or the queue is emptied.
pub data Act : Type 0 where
  takes leaves releases routes : Act
  registers fails : Peer → Act

abbrev pub addition : ℕ → Peer → Route
addition a v = record { add_or_remove = true; addr = a; peer = v }

abbrev pub removal : ℕ → Peer → Route
removal a v = record { add_or_remove = false; addr = a; peer = record v { aes = none } }

-- `tunQueue.try_push`: the stage after it, `done` if the queue had room. A session whose removal is
-- refused tries again; one whose addition is refused throws, which is the act `fails`.
unfoldable pub push : Stage → Stage → Route → World → Stage × World
push stays done r w =
    let (b, s) = try_push r w.shared in (if b then done else stays, record w { shared = s })

-- `getNewAddress`, with what it comes to
unfoldable pub taken : Option (Outcome ℕ × AddressPool) → World → Stage × World
taken (some (ok a, p)) w = (holds a, record w { shared = record w.shared { pool = p } })
taken (some (throw e, p)) w = (outside, record w { shared = record w.shared { pool = p } })
taken (some (abort m, p)) w = (outside, record w { shared = record w.shared { pool = p } })
taken (some (unfinished, p)) w = (outside, record w { shared = record w.shared { pool = p } })
taken none w = (outside, w)

-- `emptyQueue` with all that is in the queue
unfoldable pub route : World → World
route w = elim (empty_queue (map some w.shared.queue) w.router) [
  | none ↦ w
  | some (m, dropped) ↦ record w { shared = record w.shared { queue = [] }; router = m }
]

module _ (check : ℕ → Outcome (Unit {0})) where
  unfoldable pub next : Act → Stage → World → Stage × World
  next takes outside w = taken (allot check rounds w.shared.pool) w
  next (registers v) (holds a) w = push (holds a) (routed a v) (addition a v) w
  next leaves (routed a v) w = push (routed a v) (unrouted a) (removal a v) w
  next (fails v) (holds a) w = push (holds a) (unrouted a) (removal a v) w
  next releases (unrouted a) w =
      (outside, record w { shared = record w.shared { pool = release a w.shared.pool } })
  next routes p w = (p, route w)
  next _ p w = (p, w)

-- No session, and nothing shared but the counter of the pool.
abbrev pub nobody : ℕ → System Stage World
nobody counter = record {
  shared = record {
    shared = record { pool = record { counter = counter; taken = [] }; queue = [] };
    router = [];
  };
  place = λ _. outside;
}
