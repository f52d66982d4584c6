-- ===== src/Accept/Tests.antt =====
-- A table that is full, and one connection more.
use vpverk.Base.{
  ℕ, zero, suc, ◌<◌, ◌≡◌, refl, ap, false, some, List, [], ◌∷◌, length, length-append, arith,
}
use vpverk.Net.Wire.{wire}
use vpverk.Sweep.{Entry}
use vpverk.Accept.{arrives, Server, accept_connection, accept_event, admit, table_bound}

abbrev guest : Entry wire
guest = record {
  name = 1;
  con = record {
    closed = false;
    write_locked = false;
    read_locked = false;
    sock = record { waiting = []; sent = []; received = [] };
  };
  alive_time = 5;
}

guests : ℕ → List (Entry wire)
guests zero = []
guests (suc n) = guest ∷ guests n

length-guests : (n : ℕ) → length (guests n) ≡ n
unfolding guests
length-guests zero = refl
length-guests (suc n) = ap suc (length-guests n)

abbrev full : Server wire
full = record { acceptor = some 1; connections = guests 8192; started = []; sweeps = 0 }

too_long :
    table_bound < length (accept_connection wire 1 (λ xs. xs) (arrives guest ∷ []) full).connections
unfolding accept_connection accept_event admit
too_long = omega (arith, length-append (guests 8192) (guest ∷ []), length-guests 8192)
