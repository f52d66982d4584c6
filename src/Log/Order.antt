-- ===== src/Log/Order.antt =====
-- No message is lost, and none is written twice or out of order.
use vpverk.Base.{ℕ, ◌≡◌, Bool, true, false, List, [], ◌∷◌, ◌++◌, map, if◌then◌else◌}
use vpverk.Log.{
  Message, Stream, Place, looping, locking, deciding, blocked, draining, ended, dead, Log, Event,
  pushes, works, fails, requests_stop, notifies, wakes,
}
use vpverk.Log.Files.{stream_of}

-- The worker is not in `cuabort`, and no exception ended it.
abbrev pub IsAlive : Place → Type 0
IsAlive dead = ⊥
IsAlive looping = Unit {0}
IsAlive locking = Unit {0}
IsAlive deciding = Unit {0}
IsAlive blocked = Unit {0}
IsAlive draining = Unit {0}
IsAlive ended = Unit {0}

-- A message as it is written
abbrev pub filed : Message → Stream × List ℕ
filed m = (stream_of m.target, m.text)

-- The messages pushed are those written, each to the stream of its target, then those in the queue; and
-- the worker is alive if no write is broken.
pub record Kept (broken : Bool) (s : Log) : Type 0 where
  pub front : List Message
  pub joined : front ++ s.queue ≡ s.pushed
  pub files_got : s.written ≡ map filed front
  pub alive : broken ≡ false → IsAlive s.place

-- Nothing but the place changes.
moved :
    {b : Bool} (s : Log) (p : Place)
    → Kept b s
    → (b ≡ false → IsAlive p)
    → Kept b (record s { place = p })
moved s p k h = record { front = k.front; joined = k.joined; files_got = k.files_got; alive = h }

-- A write of the worker has failed.
unfoldable pub failing : Event → Bool
failing fails = true
failing (pushes m) = false
failing works = false
failing requests_stop = false
failing notifies = false
failing wakes = false

unfoldable pub fails_in : Bool → List Event → Bool
fails_in b [] = b
fails_in b (e ∷ events) = fails_in (if failing e then true else b) events
