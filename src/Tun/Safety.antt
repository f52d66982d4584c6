-- ===== src/Tun/Safety.antt =====
-- One operation at a time, and only while its coroutine has the lock.
use vpverk.Base.{ℕ, ◌≡◌, Bool, true, false, List, arith, ◌↔◌}
use vpverk.Schedule.{run}
use vpverk.Schedule.Owner.{Local, Inv, run-Inv, Nested, run-Kept}
use vpverk.Tun.{
  Place, read_locked, read_flagged, reading, read_done, read_leaving, write_locked, writing,
  write_done, aborted, Event, next, start,
}

-- It has `lock_`; the descriptor that aborted keeps it.
abbrev pub holds_lock : Place → Bool
holds_lock read_locked = true
holds_lock read_flagged = true
holds_lock reading = true
holds_lock (read_done n) = true
holds_lock (read_leaving n) = true
holds_lock write_locked = true
holds_lock writing = true
holds_lock write_done = true
holds_lock aborted = true
holds_lock _ = false

-- It has set `it_is_read_lock`.
abbrev holds_flag : Place → Bool
holds_flag read_flagged = true
holds_flag reading = true
holds_flag (read_done n) = true
holds_flag _ = false

-- It waits for the descriptor.
abbrev pub operates : Place → Bool
operates reading = true
operates writing = true
operates _ = false

lock_law : Local next holds_lock (λ d. d.locked)
unfolding next
lock_law = record {
  takes_free = λ a h l p q. ground arith;
  sets = λ a h l p q. ground arith;
  clears_own = λ a h l p q. ground arith;
  has_taken = λ a h l p q. ground arith;
}

flag_law : Nested next holds_lock holds_flag (λ d. d.it_is_read_lock)
unfolding next
flag_law = record {
  inside = λ h p. ground arith;
  sets_own = λ a h l p q. ground arith;
  clears_inside = λ a h l p q. ground arith;
  has_set = λ a h l p q. ground arith;
}

operation_law : Nested next holds_lock operates (λ d. d.busy)
unfolding next
operation_law = record {
  inside = λ h p. ground arith;
  sets_own = λ a h l p q. ground arith;
  clears_inside = λ a h l p q. ground arith;
  has_set = λ a h l p q. ground arith;
}

start_lock : Inv next holds_lock (λ d. d.locked) start
start_lock = record { unique = λ i j p q. cc; held_set = λ i p. cc; set_held = λ p. cc }

-- After any interleaving of reads and writes, timeouts, cancellations and ends of operations, by any
-- number of coroutines: at most one waits for the descriptor, it has the lock, and no other one has it;
-- and the descriptor has an operation under way exactly while one waits for it.
pub operation_alone :
    (xs : List (ℕ × Event)) (i j : ℕ)
    → let s = run next start xs in
      (operates (s.place i) ≡ true → holds_lock (s.place j) ≡ true → i ≡ j)
      × ((s.shared.busy ≡ true) ↔ ((k : ℕ) × (operates (s.place k) ≡ true)))
operation_alone xs i j =
    let v = run-Inv next lock_law start xs start_lock in
    let w =
      run-Kept next lock_law operation_law start xs start_lock
        (record { owner_set = λ i p. cc; set_owner = λ p. cc }) in
    (λ p q. v.unique i j (operation_law.inside _ p) q, (w.set_owner, λ h. w.owner_set h.0 h.1))

-- After any interleaving of any number of coroutines that read and write, from the start on, the
-- lock is set exactly while some coroutine has it, and
-- `it_is_read_lock` exactly while the one that has it is reading.
pub flags-iff-held :
    (xs : List (ℕ × Event))
    → let s = run next start xs in
      ((s.shared.locked ≡ true) ↔ ((k : ℕ) × (holds_lock (s.place k) ≡ true)))
      × ((s.shared.it_is_read_lock ≡ true) ↔ ((k : ℕ) × (holds_flag (s.place k) ≡ true)))
flags-iff-held xs =
    let v = run-Inv next lock_law start xs start_lock in
    let w =
      run-Kept next lock_law flag_law start xs start_lock
        (record { owner_set = λ i p. cc; set_owner = λ p. cc }) in
    ((v.set_held, λ h. v.held_set h.0 h.1), (w.set_owner, λ h. w.owner_set h.0 h.1))
