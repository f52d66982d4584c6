-- ===== src/Tun/Turns.antt =====
-- Coroutines of `Tun` in the event loop of one thread: what each does from where it is resumed to where it
-- is suspended again (src/shared/tun.cpp). `after` is what the library of the coroutines posts when `lock`,
-- `read` or `write` has come to its end.
pub mod First
use vpverk.Base.{
  ℕ, zero, suc, ◌≡◌, ◌≢◌, ◌≤◌, refl, sym, ap, ◌∙◌, arith, true, false, ◌⊎◌, inl, inr, Option, some,
  List, [], ◌∷◌, ◌++◌, contains,
}
use vpverk.Effect.{Outcome, ok}
use vpverk.Schedule.{System, step, run}
use vpverk.Schedule.Steps.{step-At, step_other}
use vpverk.Loop.{Turn, Loop, Happening, turns, turn, resume, happens, loop_run}
use vpverk.Tun.{
  Device, Place, idle, read_begun, read_locked, read_done, read_leaving, write_posted, write_begun,
  write_locked, write_done, Event, goes_on, next, start,
}
use vpverk.Tun.Safety.{flags-iff-held}

-- How many of its own steps a coroutine makes when it is resumed.
unfoldable pub steps_at : Place → ℕ
steps_at read_begun = 1
steps_at read_locked = 2
steps_at (read_done n) = 2
steps_at write_posted = 2
steps_at write_begun = 1
steps_at write_locked = 1
steps_at write_done = 1
steps_at _ = 0

unfoldable pub go_on : ℕ → ℕ → System Place Device → System Place Device
go_on zero h s = s
go_on (suc n) h s = go_on n h (step next s (h, goes_on))

-- It has failed to get the lock and reschedules, or it got the lock or is through, or it waits for the
-- descriptor.
unfoldable pub posted_at : (ℕ → List ℕ) → ℕ → Place → List ℕ
posted_at after h read_begun = h ∷ []
posted_at after h write_begun = h ∷ []
posted_at after h read_locked = after h
posted_at after h write_locked = after h
posted_at after h idle = after h
posted_at after h _ = []

unfoldable pub coroutine : (ℕ → List ℕ) → ℕ → System Place Device → Turn (System Place Device)
coroutine after h s =
    let t = go_on (steps_at (s.place h)) h s in
    record { state = t; posts = posted_at after h (t.place h); ended = false }
