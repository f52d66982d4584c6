-- ===== src/Connection/Tests.antt =====
-- `close` and the locks at concrete states, and the theorems at them.
use vpverk.Base.{ℕ, ◌≡◌, refl, arith, true, false, List, [], ◌∷◌}
use vpverk.Net.{reliable_is_open, send, send_loop}
use vpverk.Net.Wire.{wire}
use vpverk.Connection.{Connection, close}
use vpverk.Connection.Close.{Tells, close-Tells}
use vpverk.Schedule.{run, step}
use vpverk.Connection.Locks.{Act, takes_read, takes_both, takes_write, goes_on, start, next}
use vpverk.Connection.Locks.Safety.{holds_read, holds_write, holders_unique}

abbrev client : Connection wire
client = record {
  closed = false;
  write_locked = false;
  read_locked = false;
  sock = record { waiting = 1 ∷ 2 ∷ []; sent = []; received = [] };
}

abbrev alone : Connection wire → Connection wire
alone c = c

-- "no"
abbrev reason : List ℕ
reason = b'n' ∷ b'o' ∷ []

close-client :
    (close wire alone 1 reason client).1.sock.sent
    ≡ 255 ∷ 255 ∷ 255 ∷ 255 ∷ 95 ∷ 69 ∷ 114 ∷ 114 ∷ 111 ∷ 114 ∷ 58 ∷ 32 ∷ 110 ∷ 111 ∷ 0 ∷ []
unfolding close reliable_is_open send send_loop
close-client = refl

close-Tells_example : Tells wire reason client (close wire alone 1 reason client)
close-Tells_example = close-Tells wire alone 0 reason client (omega arith) refl refl

-- The coroutine 0 takes both locks against 1, which holds the write lock, and gives way.
abbrev contended : List (ℕ × Act)
contended =
    (1, takes_write) ∷ (0, takes_both) ∷ (2, takes_read) ∷ (0, goes_on) ∷ (2, takes_read) ∷ []

contended-runs : (run next start contended).shared ≡ record { read_flag = true; write_flag = true }
unfolding run step next native.Mathlib.Decide.ℕ_discrete
contended-runs = refl

holders_unique_example :
    let s = run next start contended in
    (holds_read (s.place 2) ≡ true → holds_read (s.place 0) ≡ true → ◌≡◌ {A = ℕ} 2 0)
    × (holds_write (s.place 2) ≡ true → holds_write (s.place 0) ≡ true → ◌≡◌ {A = ℕ} 2 0)
holders_unique_example = holders_unique contended 2 0
