-- ===== src/Accept.antt =====
-- `acceptConnection` (src/server/contexts/sessionscontrol.cpp): the acceptor, the table of connections, and the
-- sessions and sweeps that start.
pub mod Admits
mod Tests
use vpverk.Base.{ℕ, suc, ◌+◌, Option, none, some, List, [], ◌∷◌, ◌++◌, length, ltb, if◌then◌else◌}
use vpverk.Effect.{ErrorCode, Exception, operation_canceled}
use vpverk.Net.{Socket}
use vpverk.Sweep.{Entry}

-- `1<<13`
abbrev pub table_bound : ℕ
table_bound = 8192

module _ (S : Socket) where
  -- What the coroutine waits for: the acceptor, made or not, then a connection or an error. The end of
  -- a list of these is the stop, which also cancels the accept.
  pub data Event : Type 0 where
    bound : Event
    not_bound : Exception → Event
    arrives : Entry S → Event
    fails : ErrorCode → Event

  -- `acceptor_` by its port, `connections_`, and the sessions and sweeps started so far.
  pub record Server : Type 0 where
    pub acceptor : Option ℕ
    pub connections : List (Entry S)
    pub started : List (Entry S)
    pub sweeps : ℕ

  module _ (port : ℕ) (meanwhile : List (Entry S) → List (Entry S)) where
    -- `connections_.push_back`, `startConnection`, and the sweep of a table that is too long;
    -- `meanwhile` is what others did to the table since.
    unfoldable pub admit : Entry S → Server → Server
    admit c s =
        let table = meanwhile s.connections ++ c ∷ [] in
        record s {
          connections = table;
          started = s.started ++ c ∷ [];
          sweeps = if ltb table_bound (length table) then suc s.sweeps else s.sweeps;
        }

    -- The catch: the acceptor goes, and `acceptConnection` starts again.
    abbrev start_again : Server → Server
    start_again s = record s { acceptor = none }

    -- What follows one wait. Without an acceptor it is the one for it, else the one for a connection.
    unfoldable pub accept_event : Event → Option ℕ → Server → Server
    accept_event bound none s = record s { acceptor = some port }
    accept_event (not_bound e) none s = start_again s
    accept_event (arrives c) none s = s
    accept_event (fails e) none s = s
    accept_event bound (some p) s = s
    accept_event (not_bound e) (some p) s = s
    accept_event (arrives c) (some p) s = admit c s
    accept_event (fails e) (some p) s = start_again s

    -- `acceptConnection`
    unfoldable pub accept_connection : List Event → Server → Server
    accept_connection [] s = s
    accept_connection (e ∷ events) s = accept_connection events (accept_event e s.acceptor s)
