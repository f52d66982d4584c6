-- ===== src/Log.antt =====
-- The log (src/shared/log/impl.hpp, src/shared/log/logger.hpp, src/shared/log/write.cpp): any thread pushes
-- messages into a queue under a mutex, and one worker writes them to the streams of their targets.
pub mod Files
pub mod Order
pub mod Wakeup
mod Tests
use vpverk.Base.{
  ℕ, zero, suc, ◌+◌, Bool, true, false, not, ◌||◌, List, [], ◌∷◌, ◌++◌, ◌==◌, if◌then◌else◌,
}
use vpverk.Effect.{Exception, Outcome, ok, throw, abort, unfinished, M, continue, ◌>>=◌, ◌>>◌}
use vpverk.FlatMap.{FlatMap, insert, at_try_first}

-- `cvk::log::to`, without `shared`, which is another name of one of these
pub data Target : Type 0 where
  server client session : Target

-- The number of a target
abbrev pub target_id : Target → ℕ
target_id server = 0
target_id client = 1
target_id session = 2

-- `cvk::log::lvl`
pub data Level : Type 0 where
  debug good norm error critical : Level

-- A stream, by the end of the name of its file
pub data Stream : Type 0 where
  server_log client_log session_log : Stream

-- `Logger::init`: the streams that `work` gets
abbrev pub init : M (FlatMap Stream) (Unit {0})
init = do
  insert (target_id session) session_log
  insert (target_id server) server_log
  insert (target_id client) client_log

-- A message with its target
pub record Message : Type 0 where
  pub target : Target
  pub text : List ℕ

-- Where the worker stands in `work`: at the head of the while loop; before the mutex, from there or
-- woken up; with the mutex and the condition false; blocked, the mutex free; with the mutex, in the
-- inner loop; at its end; dead of an exception or in `cuabort`.
pub data Place : Type 0 where
  looping locking deciding blocked draining ended dead : Place

pub record Log : Type 0 where
  pub queue : List Message
  pub stop_requested : Bool
  pub place : Place
  -- what was written, with its stream, and what was pushed, in order
  pub written : List (Stream × List ℕ)
  pub pushed : List Message

-- `notify_one`
abbrev pub notified : Place → Place
notified blocked = locking
notified looping = looping
notified locking = locking
notified deciding = deciding
notified draining = draining
notified ended = ended
notified dead = dead

abbrev pub has_mutex : Place → Bool
has_mutex deciding = true
has_mutex draining = true
has_mutex looping = false
has_mutex locking = false
has_mutex blocked = false
has_mutex ended = false
has_mutex dead = false

-- `push`, once it has the mutex
abbrev push_locked : Message → Log → Log
push_locked m s = record s {
  queue = s.queue ++ m ∷ [];
  pushed = s.pushed ++ m ∷ [];
  place = notified s.place;
}

-- `push`; while the worker has the mutex it waits, and is tried again later.
unfoldable pub push : Message → Log → Log
push m s = if has_mutex s.place then s else push_locked m s

-- The front of the queue goes to its stream, which is `good()` after it.
unfoldable pub write_front : Outcome Stream → Message → List Message → Log → Log
write_front (ok f) m rest s = record s { written = s.written ++ (f, m.text) ∷ []; queue = rest }
write_front (throw e) m rest s = record s { place = dead }
write_front (abort t) m rest s = record s { place = dead }
write_front unfinished m rest s = record s { place = dead }

-- A write after which the stream is not `good()`: the assert stops the program, and the message is still in
-- the queue. A pending `errno` is only reported on the standard error stream.
unfoldable pub write_fails : Place → List Message → Log → Log
write_fails draining (m ∷ rest) s = record s { place = dead }
write_fails p q s = s

abbrev pub is_empty : List Message → Bool
is_empty [] = true
is_empty (m ∷ rest) = false

-- The inner loop: one message, or its end
unfoldable pub drain_one : FlatMap Stream → List Message → Log → Log
drain_one streams [] s = record s { place = looping }
drain_one streams (m ∷ rest) s = write_front (at_try_first streams 1 (target_id m.target)) m rest s

-- The next action of the worker. At `blocked` there is none: it needs a notification.
unfoldable pub work_step : FlatMap Stream → Place → Log → Log
work_step streams looping s = record s { place = if s.stop_requested then ended else locking }
work_step streams locking s = record s {
  place = if not (is_empty s.queue) || s.stop_requested then draining else deciding;
}
work_step streams deciding s = record s { place = blocked }
work_step streams blocked s = s
work_step streams draining s = drain_one streams s.queue s
work_step streams ended s = s
work_step streams dead s = s

-- What happens next: a push, the worker's next action, a write of the worker that fails, the two actions of
-- `stop` before its join, or a wakeup that nobody asked for.
pub data Event : Type 0 where
  pushes : Message → Event
  works fails requests_stop notifies wakes : Event

unfoldable pub log_step : FlatMap Stream → Event → Log → Log
log_step streams (pushes m) s = push m s
log_step streams works s = work_step streams s.place s
log_step streams fails s = write_fails s.place s.queue s
log_step streams requests_stop s = record s { stop_requested = true }
log_step streams notifies s = record s { place = notified s.place }
log_step streams wakes s = record s { place = notified s.place }

unfoldable pub log_run : FlatMap Stream → List Event → Log → Log
log_run streams [] s = s
log_run streams (e ∷ events) s = log_run streams events (log_step streams e s)

-- `remainsOnExit`: what the file of the exit gets, by target and text, and the queue after it
unfoldable pub remains_on_exit : List Message → List Message × List Message
remains_on_exit [] = ([], [])
remains_on_exit (m ∷ rest) = let (out, left) = remains_on_exit rest in (m ∷ out, left)

-- `Logger::exit` after the join: the messages of the file `_exit.log`, if there is one
unfoldable pub exit_log : Log → List Message × Log
exit_log s =
    if is_empty s.queue
    then ([], s)
    else (let (out, left) = remains_on_exit s.queue in (out, record s { queue = left }))

abbrev pub begin : Log
begin = record { queue = []; stop_requested = false; place = looping; written = []; pushed = [] }

-- The colour of a level
abbrev colour : Level → List ℕ
colour debug = 27 ∷ b'[' ∷ b'3' ∷ b'6' ∷ b'm' ∷ []
colour good = 27 ∷ b'[' ∷ b'3' ∷ b'2' ∷ b'm' ∷ []
colour norm = 27 ∷ b'[' ∷ b'0' ∷ b'm' ∷ []
colour error = 27 ∷ b'[' ∷ b'3' ∷ b'3' ∷ b'm' ∷ []
colour critical = 27 ∷ b'[' ∷ b'3' ∷ b'1' ∷ b'm' ∷ []

-- `write::~write`: the message that is pushed
unfoldable finish_write : Level → Target → List ℕ → List ℕ → Message
finish_write lvl target context result = record {
  target = target;
  text = colour lvl ++ (context ++ (result ++ 10 ∷ []));
}

-- `file.substr(file.find_last_of('/')+1)`
unfoldable after_last_slash : List ℕ → List ℕ → List ℕ
after_last_slash [] name = name
after_last_slash (b ∷ path) name = after_last_slash path (if b == b'/' then path else name)

unfoldable file_name : List ℕ → List ℕ
file_name path = after_last_slash path path
