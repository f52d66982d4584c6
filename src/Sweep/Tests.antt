-- ===== src/Sweep/Tests.antt =====
-- A sweep of a table with a connection that is young, one that is old and one that is closed.
use vpverk.Base.{ℕ, refl, Bool, true, false, List, [], ◌∷◌}
use vpverk.Net.Wire.{wire}
use vpverk.Connection.{Connection}
use vpverk.Sweep.{Entry, close_old_sessions}
use vpverk.Sweep.Step.{Swept}
use vpverk.Sweep.Partition.{close_old_sessions-Swept}

abbrev alone : Connection wire → Connection wire
alone c = c

abbrev nobody : List (Entry wire) → List (Entry wire)
nobody xs = xs

abbrev entry : ℕ → ℕ → Bool → Entry wire
entry name age held = record {
  name = name;
  con = record {
    closed = false;
    write_locked = false;
    read_locked = held;
    sock = record { waiting = 1 ∷ []; sent = []; received = [] };
  };
  alive_time = age;
}

abbrev table : List (Entry wire)
table = entry 0 99 false ∷ entry 1 5 false ∷ entry 2 99 true ∷ entry 3 10 false ∷ []

close_old_sessions-Swept_example :
    Swept wire alone 3 nobody 10 table
      (close_old_sessions wire alone 4 nobody 10 (record { connections = table; closed = [] }))
close_old_sessions-Swept_example =
    close_old_sessions-Swept wire alone 3 nobody 10 table (λ ys. refl) refl
