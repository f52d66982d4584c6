-- ===== src/Connection/Locks.antt =====
-- The read and the write lock of a `Connection` (src/server/connection.cpp: `read_lock`, `write_lock`,
-- `context_lock`, and the destructor of `Socket_lock`), with any number of coroutines on any
-- threads. A step is one atomic operation of one coroutine.
pub mod Safety
use vpverk.Base.{ℕ, Bool, true, false, List, [], ◌∷◌, if◌then◌else◌}
use vpverk.Schedule.{System}

-- `read_lock_` and `write_lock_`
pub record Locks : Type 0 where
  pub read_flag : Bool
  pub write_flag : Bool

-- Where a coroutine stands: it holds nothing, one lock, both, or is inside `context_lock`, between
-- the two exchanges.
pub data Holding : Type 0 where
  nothing reading writing between both : Holding

-- What a coroutine may do next.
pub data Act : Type 0 where
  takes_read takes_write takes_both goes_on drops : Act

-- `read_lock_.exchange(true)` of `read_lock`; the lock object is given out if it was false.
read_lock : Locks → Holding × Locks
read_lock l = (if l.read_flag then nothing else reading, record l { read_flag = true })

write_lock : Locks → Holding × Locks
write_lock l = (if l.write_flag then nothing else writing, record l { write_flag = true })

-- The first exchange of `context_lock`, and the second with its way back.
context_first : Locks → Holding × Locks
context_first l = (if l.read_flag then nothing else between, record l { read_flag = true })

context_second : Locks → Holding × Locks
context_second l =
    if l.write_flag
    then (nothing, record { read_flag = false; write_flag = true })
    else (both, record l { write_flag = true })

-- One atomic operation. A pair of lock objects is destroyed last member first.
unfoldable pub next : Act → Holding → Locks → Holding × Locks
unfolding read_lock write_lock context_first context_second
next takes_read nothing l = read_lock l
next takes_write nothing l = write_lock l
next takes_both nothing l = context_first l
next goes_on between l = context_second l
next drops reading l = (nothing, record l { read_flag = false })
next drops writing l = (nothing, record l { write_flag = false })
next drops both l = (reading, record l { write_flag = false })
next _ h l = (h, l)

abbrev pub start : System Holding Locks
start = record { shared = record { read_flag = false; write_flag = false }; place = λ _. nothing }
