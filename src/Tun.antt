-- ===== src/Tun.antt =====
-- `Tun` (src/shared/tun.hpp, src/shared/tun.cpp): any number of coroutines that read from the tunnel
-- and write to it. A step is what one coroutine does up to the next point where another may run, or
-- the end of the operation that it waits for.
pub mod Safety
pub mod Cancel
pub mod Descriptor
pub mod Lock
pub mod Turns
mod Tests
use vpverk.Base.{ℕ, Bool, true, false, ◌||◌, if◌then◌else◌}
use vpverk.Schedule.{System}

-- `lock_` and `it_is_read_lock`; then what the descriptor knows: a coroutine waits for the handler of an
-- operation, the operation has completed and its handler is posted, it was cancelled before that; and
-- that the wait on `cancel_timer` was started.
pub record Device : Type 0 where
  pub locked : Bool
  pub it_is_read_lock : Bool
  pub busy : Bool
  pub completed : Bool
  pub canceled : Bool
  pub timer : Bool

-- Where a coroutine stands in `read` or `write`.
pub data Place : Type 0 where
  idle : Place
  -- `read`: before the lock, with it, with both, waiting for the descriptor, done with so many bytes,
  -- and with `lock_2` given back
  read_begun read_locked read_flagged reading : Place
  read_done read_leaving : ℕ → Place
  -- `write`: on its way through the strand, before the lock, with it, waiting for the descriptor, done
  write_posted write_begun write_locked writing write_done : Place
  -- inside `cuabort`
  aborted : Place

-- What happens next to a coroutine: a call, its own next step, its operation completes, or a handler is
-- called: of its operation, which came to so many bytes or wrote the packet, or of the timer.
pub data Event : Type 0 where
  calls_read calls_write goes_on completes expires writes : Event
  arrives : ℕ → Event

-- The exchange of `lock()`
try_lock : Place → Place → Device → Place × Device
try_lock waits holds d = (if d.locked then waits else holds, record d { locked = true })

-- `it_is_read_lock.load` at the start of `write`
begin_write : Device → Place × Device
begin_write d = (if d.it_is_read_lock then write_posted else write_begun, d)

-- `async_read_some` or `async_write`
begin_operation : Place → Device → Place × Device
begin_operation p d = (p, record d { busy = true; completed = false; canceled = false })

-- `async_read_some`, then `cancel_timer.async_wait`
begin_read : Device → Place × Device
unfolding begin_operation
begin_read d = begin_operation reading (record d { timer = true })

-- The operation under way completes, if it was not cancelled; its handler is posted.
complete : Device → Device
complete d = record d { completed = if d.canceled then d.completed else true }

-- `tun.cancel()`: the operation under way, whosever it is, ends with `operation_canceled`. One that has
-- completed does not, even if its handler was not called yet.
cancel : Device → Device
cancel d = record d {
  canceled = if d.busy then (if d.completed then d.canceled else true) else d.canceled;
}

-- The handler of the timer, which may come late, when the read that started it is over.
expire : Device → Device
unfolding cancel
expire d = if d.timer then cancel d else d

-- The callback of `async_read_some`: a read that was cancelled gives 0 bytes.
end_read : ℕ → Device → Place × Device
end_read n d = (read_done (if d.canceled then 0 else n), record d { busy = false })

-- The callback of `async_write`: one that was cancelled wrote less than the packet.
end_write : Device → Place × Device
end_write d = (if d.canceled then aborted else write_done, record d { busy = false })

unfoldable pub next : Event → Place → Device → Place × Device
unfolding try_lock begin_write begin_operation begin_read complete cancel expire end_read end_write
next calls_read idle d = (read_begun, d)
next calls_write idle d = begin_write d
next goes_on read_begun d = try_lock read_begun read_locked d
next goes_on read_locked d = (read_flagged, record d { it_is_read_lock = true })
next goes_on read_flagged d = begin_read d
next completes reading d = (reading, complete d)
next completes writing d = (writing, complete d)
next (arrives n) reading d = if d.canceled || d.completed then end_read n d else (reading, d)
next expires p d = (p, expire d)
next goes_on (read_done n) d = (read_leaving n, record d { it_is_read_lock = false })
next goes_on (read_leaving n) d = (idle, record d { locked = false })
next goes_on write_posted d = (write_begun, cancel d)
next goes_on write_begun d = try_lock write_begun write_locked d
next goes_on write_locked d = begin_operation writing d
next writes writing d = if d.canceled || d.completed then end_write d else (writing, d)
next goes_on write_done d = (idle, record d { locked = false })
next _ p d = (p, d)

abbrev pub start : System Place Device
start = record {
  shared = record {
    locked = false;
    it_is_read_lock = false;
    busy = false;
    completed = false;
    canceled = false;
    timer = false;
  };
  place = λ _. idle;
}
