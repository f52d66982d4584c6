-- ===== src/Connection/Locks/Safety.antt =====
-- No two coroutines hold one lock, and no lock is set without a holder.
use vpverk.Base.{ℕ, ◌≡◌, Bool, true, false, List, arith, ◌↔◌}
use vpverk.Schedule.{run}
use vpverk.Schedule.Owner.{Local, Inv, run-Inv}
use vpverk.Connection.Locks.{Holding, reading, writing, between, both, Act, next, start}

abbrev pub holds_read : Holding → Bool
holds_read reading = true
holds_read between = true
holds_read both = true
holds_read _ = false

abbrev pub holds_write : Holding → Bool
holds_write writing = true
holds_write both = true
holds_write _ = false

read_law : Local next holds_read (λ l. l.read_flag)
unfolding next
read_law = record {
  takes_free = λ a h l p q. ground arith;
  sets = λ a h l p q. ground arith;
  clears_own = λ a h l p q. ground arith;
  has_taken = λ a h l p q. ground arith;
}

write_law : Local next holds_write (λ l. l.write_flag)
unfolding next
write_law = record {
  takes_free = λ a h l p q. ground arith;
  sets = λ a h l p q. ground arith;
  clears_own = λ a h l p q. ground arith;
  has_taken = λ a h l p q. ground arith;
}

start_read : Inv next holds_read (λ l. l.read_flag) start
start_read = record { unique = λ i j p q. cc; held_set = λ i p. cc; set_held = λ p. cc }

start_write : Inv next holds_write (λ l. l.write_flag) start
start_write = record { unique = λ i j p q. cc; held_set = λ i p. cc; set_held = λ p. cc }

-- After any interleaving of the atomic operations of `read_lock`, `write_lock`, `context_lock` and
-- the destructors of the lock objects, by any number of coroutines: at most one coroutine holds
-- the read lock and at most one the write lock, where one inside `context_lock`, between its two
-- exchanges, counts as holding the read lock.
pub holders_unique :
    (xs : List (ℕ × Act)) (i j : ℕ)
    → let s = run next start xs in
      (holds_read (s.place i) ≡ true → holds_read (s.place j) ≡ true → i ≡ j)
      × (holds_write (s.place i) ≡ true → holds_write (s.place j) ≡ true → i ≡ j)
holders_unique xs i j = (
  (run-Inv next read_law start xs start_read).unique i j,
  (run-Inv next write_law start xs start_write).unique i j,
)

-- After any interleaving of these operations, by any number of coroutines, no lock is leaked: a flag is set exactly when some coroutine holds
-- that lock, also after a `context_lock` that got the first lock and not the second.
set-iff-held :
    (xs : List (ℕ × Act))
    → let s = run next start xs in
      ((s.shared.read_flag ≡ true) ↔ ((i : ℕ) × (holds_read (s.place i) ≡ true)))
      × ((s.shared.write_flag ≡ true) ↔ ((i : ℕ) × (holds_write (s.place i) ≡ true)))
set-iff-held xs =
    let r = run-Inv next read_law start xs start_read in
    let w = run-Inv next write_law start xs start_write in
    ((r.set_held, λ h. r.held_set h.0 h.1), (w.set_held, λ h. w.held_set h.0 h.1))
