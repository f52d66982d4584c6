-- ===== src/Traffic/Unlock.antt =====
-- `performDataExchange` gives the read lock back.
use vpverk.Base.{ℕ, ◌≡◌, false}
use vpverk.Effect.{Outcome, ok, throw, abort, unfinished}
use vpverk.Net.{Socket}
use vpverk.Aes.{Cipher}
use vpverk.Connection.{Connection}
use vpverk.Traffic.{Relay}

module _ (C : Cipher) (S : Socket) (yield : Connection S → Connection S) (rounds : ℕ) where
  abbrev Unlocked : {A : Type 0} → Outcome A × Relay C S yield rounds → Type 0
  Unlocked x = x.1.link.con.read_locked ≡ false

  -- The lock is taken at once, or was not tried.
  abbrev Taken : Outcome (Unit {0}) × Connection S → Type 0
  Taken (ok u, c) = Unit {0}
  Taken (throw e, c) = ⊥
  Taken (abort m, c) = ⊥
  Taken (unfinished, c) = c.read_locked ≡ false
