-- ===== src/Sweep.antt =====
-- `closeOldSessions` (src/server/contexts/sessionscontrol.cpp): the connections that are closed or too
-- old leave the table.
pub mod Removal
pub mod Looks
pub mod Step
pub mod Partition
mod Tests
use vpverk.Base.{
  ℕ, zero, suc, ◌+◌, min, Bool, true, false, Option, none, some, List, [], ◌∷◌, ◌++◌, length,
  get_elem?, set, leb, if◌then◌else◌,
}
use vpverk.Effect.{Exception, Outcome, ok, throw, abort, unfinished, M, continue, ◌>>=◌, ◌>>◌}
use vpverk.Net.{Socket}
use vpverk.Connection.{Connection, is_active, close}

-- `"not active (should be no-op)"`
abbrev not_active : List ℕ
not_active =
    b'n' ∷ b'o' ∷ b't' ∷ b' ' ∷ b'a' ∷ b'c' ∷ b't' ∷ b'i' ∷ b'v' ∷ b'e' ∷ b' ' ∷ b'(' ∷ b's' ∷ b'h'
    ∷ b'o' ∷ b'u' ∷ b'l' ∷ b'd' ∷ b' ' ∷ b'b' ∷ b'e' ∷ b' ' ∷ b'n' ∷ b'o' ∷ b'-' ∷ b'o' ∷ b'p'
    ∷ b')' ∷ []

-- `"session expired"`
abbrev session_expired : List ℕ
session_expired =
    b's' ∷ b'e' ∷ b's' ∷ b's' ∷ b'i' ∷ b'o' ∷ b'n' ∷ b' ' ∷ b'e' ∷ b'x' ∷ b'p' ∷ b'i' ∷ b'r' ∷ b'e'
    ∷ b'd' ∷ []

pub data Verdict : Type 0 where
  keep : Verdict
  drop : List ℕ → Verdict

module _ {A : Type 0} where
  pub last : List A → Option A
  last [] = none
  last (x ∷ []) = some x
  last (x ∷ y ∷ xs) = last (y ∷ xs)

  -- `pop_back`
  pub pop_back : List A → List A
  pop_back [] = []
  pop_back (x ∷ []) = []
  pop_back (x ∷ y ∷ xs) = x ∷ pop_back (y ∷ xs)

  -- `connections_[i] = std::move(connections_.back())`, then `pop_back`
  pub swap_remove : ℕ → List A → List A
  swap_remove i xs = elim (last xs) [ none ↦ [] | some z ↦ pop_back (set xs i z) ]

module _ (S : Socket) where
  -- A connection of the table, which `name` tells from the others, with its age in seconds.
  pub record Entry : Type 0 where
    pub name : ℕ
    pub con : Connection S
    pub alive_time : ℕ

  -- The table, and the connections closed with the reasons given.
  pub record Table : Type 0 where
    pub connections : List Entry
    pub closed : List (Entry × List ℕ)

  -- What `is_active` and the age of a connection come to.
  judge : ℕ → ℕ → Option Bool → Verdict
  judge max age none = keep
  judge max age (some false) = drop not_active
  judge max age (some true) = if leb max age then drop session_expired else keep

  judged : ℕ → Entry → Outcome (Option Bool) × Connection S → Outcome Verdict × Entry
  judged max e (ok a, c) = (ok (judge max e.alive_time a), record e { con = c })
  judged max e (throw x, c) = (throw x, record e { con = c })
  judged max e (abort m, c) = (abort m, record e { con = c })
  judged max e (unfinished, c) = (unfinished, record e { con = c })

  pub look : ℕ → Entry → Outcome Verdict × Entry
  unfolding judged judge
  look max e = judged max e (is_active S e.con)

  module _ (yield : Connection S → Connection S) (spins : ℕ)
      (meanwhile : List Entry → List Entry) where
    -- `conn->close(reason)`; `meanwhile` is what other coroutines do to the table before it returns.
    pub close_entry : List ℕ → Entry → Table → Outcome (Unit {0}) × Table
    close_entry reason e t =
        let (r, c) = close S yield spins reason e.con in
        (
          r,
          record {
            connections = meanwhile t.connections;
            closed = t.closed ++ (record e { con = c }, reason) ∷ [];
          },
        )

    -- An exception is a crash.
    unfoldable pub crash : {A : Type 0} → Outcome A × Table → Outcome A × Table
    crash (throw e, t) = (abort "exception in close old: ", t)
    crash (ok a, t) = (ok a, t)
    crash (abort m, t) = (abort m, t)
    crash (unfinished, t) = (unfinished, t)

    -- The while loop, from the place `i` on.
    pub sweep : ℕ → ℕ → ℕ → M Table (Unit {0})
    sweep zero max i t = (unfinished, t)
    sweep (suc fuel) max i t = elim (get_elem? t.connections i) [
      | none ↦ (ok tt, t)
      | some e ↦
          let (r, f) = look max e in
          let kept : Table = record t { connections = set t.connections i f } in
          let gone : Table = record t { connections = swap_remove i t.connections } in
          elim r [
            | ok v ↦ elim v [
              | keep ↦ sweep fuel max (suc i) kept
              | drop reason ↦
                  continue (λ u k. sweep fuel max (min i (length k.connections)) k)
                    (close_entry reason f gone)
            ]
            | throw x ↦ (throw x, kept)
            | abort m ↦ (abort m, kept)
            | unfinished ↦ (unfinished, kept)
          ]
    ]

    -- `closeOldSessions`, with `max_alive_time`
    unfoldable pub close_old_sessions : ℕ → M Table (Unit {0})
    unfolding sweep crash
    close_old_sessions max t = crash (sweep (suc (length t.connections)) max 0 t)
