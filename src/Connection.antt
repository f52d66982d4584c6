-- ===== src/Connection.antt =====
-- src/server/connection.hpp and src/server/connection.cpp: a client's socket with its flags.
pub mod Asks
pub mod Close
pub mod Locks
mod Tests
use vpverk.Base.{
  ℕ, zero, suc, ◌+◌, ◌-◌, ◌*◌, ◌/◌, ◌%◌, ◌^◌, String, Bool, true, false, Option, none, some, List,
  [], ◌∷◌, ◌++◌, length, if◌then◌else◌, ◌==◌,
}
use vpverk.Effect.{
  ErrorCode, Exception, with_code, Expected, value, unexpected, Outcome, ok, throw, abort,
  unfinished, M, continue, ◌>>=◌, ◌>>◌,
}
use vpverk.Net.{Socket, reliable_is_open, send, read_some}

-- A number of 32 bits as it lies in memory, the lowest byte first.
abbrev pub bytes_of : ℕ → List ℕ
bytes_of n = (n % 256) ∷ (n / 256 % 256) ∷ (n / 65536 % 256) ∷ (n / 16777216 % 256) ∷ []

abbrev pub number_of : List ℕ → ℕ
number_of [] = 0
number_of (b ∷ bs) = b + 256 * number_of bs

-- `"_Error: "`
abbrev pub error_prefix : List ℕ
error_prefix = b'_' ∷ b'E' ∷ b'r' ∷ b'r' ∷ b'o' ∷ b'r' ∷ b':' ∷ b' ' ∷ []

-- What `close` sends: a size that no packet has, the prefix, the reason, and a zero.
abbrev pub error_message : List ℕ → List ℕ
error_message reason = bytes_of (2 ^ 32 - 1) ++ (error_prefix ++ (reason ++ 0 ∷ []))

module _ (S : Socket) where
  pub record Connection : Type 0 where
    pub closed : Bool
    pub write_locked : Bool
    pub read_locked : Bool
    pub sock : S.State

  -- An action on the socket of a connection.
  abbrev pub on_socket : {A : Type 0} → (S.State → Outcome A × S.State) → M Connection A
  on_socket f c = let (r, s) = f c.sock in (r, record c { sock = s })

  abbrev pub read_some_reliable : ℕ → ℕ → M Connection (Expected (List ℕ))
  read_some_reliable size amount = on_socket (read_some S size amount)

  abbrev pub send_all : List ℕ → M Connection (Expected (Unit {0}))
  send_all b = on_socket (send S b)

  -- `is_active_nolock`
  unfoldable pub is_active_nolock : M Connection Bool
  is_active_nolock c =
      let (r, s) = reliable_is_open S c.sock in
      let d : Connection = record c { sock = s } in
      elim r [
        | value b ↦ (ok b, d)
        | unexpected e ↦ (throw (with_code "reliable is open unexpected error code: " e), d)
      ]

  -- `is_active`: nothing if the read lock is held.
  unfoldable pub is_active : M Connection (Option Bool)
  unfolding is_active_nolock
  is_active c =
      if c.read_locked
      then (ok none, c)
      else continue (λ b. λ d. (ok (some b), d)) (is_active_nolock c)

  -- `while(sock_.read_some(asio::buffer(drain),drain_ec)>0){}`
  drain_loop : ℕ → S.State → Outcome (Unit {0}) × S.State
  drain_loop zero s = (unfinished, s)
  drain_loop (suc fuel) s =
      let (n, t) = S.drain_some s in
      let rest = drain_loop fuel t in if n == 0 then (ok tt, t) else rest

  -- a socket operation that throws
  abbrev throwing : Option ErrorCode × S.State → Outcome (Unit {0}) × S.State
  throwing (none, s) = (ok tt, s)
  throwing (some e, s) = (throw (with_code "socket" e), s)

  finish : M S.State (Unit {0})
  unfolding drain_loop
  finish = do
    λ s. throwing (S.shutdown s)
    λ s. drain_loop (suc (S.available s)) s
    λ s. throwing (S.close s)

  -- `close` once it holds the write lock
  close_locked : List ℕ → M Connection (Unit {0})
  unfolding finish
  close_locked reason c =
      let (r, s) = reliable_is_open S c.sock in
      let d : Connection = record c { sock = s } in
      elim r [
        | unexpected e ↦ (ok tt, d)
        | value b ↦
            if b then (do send_all (error_message reason); on_socket finish) d else (ok tt, d)
      ]

  -- The lock is released whether the rest returns or throws.
  abbrev pub unlock_write : {A : Type 0} → Outcome A × Connection → Outcome A × Connection
  unlock_write (r, c) = (r, record c { write_locked = false })

  module _ (yield : Connection → Connection) where
    -- The spin on the write lock; `yield` is what other coroutines do while this one waits.
    lock_write : ℕ → M Connection (Unit {0})
    lock_write zero c = (unfinished, c)
    lock_write (suc fuel) c =
        let rest = lock_write fuel (yield c) in
        if c.write_locked then rest else (ok tt, record c { write_locked = true })

    pub close : ℕ → List ℕ → M Connection (Unit {0})
    unfolding lock_write close_locked
    close rounds reason c =
        if c.closed
        then (ok tt, c)
        else (do lock_write rounds; λ d. unlock_write (close_locked reason d))
            (record c { closed = true })
