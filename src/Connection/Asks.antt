-- ===== src/Connection/Asks.antt =====
-- What a `Connection` only asks the system (src/server/connection.hpp, src/server/connection.cpp): its address,
-- its age, and a wait for bytes. The calls of the socket go under the mutex of the connection.
use vpverk.Base.{ℕ, ◌+◌, ◌-◌, ◌*◌, ◌/◌, ◌≤◌, true, Option, none, some, arith, ◌↔◌}
use vpverk.Effect.{ErrorCode, ok, M, ◌>>=◌}
use vpverk.Net.Calls.{Guarded, call_lock}

-- `std::nullopt` on an error of `remote_endpoint`
unfoldable pub address_unless : Option ErrorCode × ℕ → Option ℕ
address_unless (none, a) = some a
address_unless (some c, a) = none

module _ {T : Type 0} where
  -- `ip`, with the call of `remote_endpoint`
  unfoldable pub ip : M T (Option ErrorCode × ℕ) → M (Guarded T) (Option ℕ)
  ip remote_endpoint = do r ← call_lock true remote_endpoint; λ s. (ok (address_unless r), s)

  -- `read_wait_awaiter`: the start of the wait goes under the mutex, its end is the result.
  unfoldable read_wait : M T (Option ErrorCode) → M (Guarded T) (Option ErrorCode)
  read_wait async_wait = call_lock true async_wait

-- Nanoseconds of the steady clock
abbrev nanoseconds : ℕ
nanoseconds = 1000000000

-- `alive_time`: the seconds since `spawned`, rounded down
unfoldable pub alive_time : ℕ → ℕ → ℕ
alive_time spawned now = (now - spawned) / nanoseconds

-- A connection has reached a bound in seconds exactly once that many have passed.
alive_time_iff :
    (spawned now bound : ℕ)
    → spawned ≤ now
    → (bound ≤ alive_time spawned now) ↔ (spawned + bound * nanoseconds ≤ now)
unfolding alive_time
alive_time_iff spawned now bound h = (λ k. omega arith, λ k. omega arith)
