-- ===== src/Traffic.antt =====
-- Packets between the two ends: a round of `performDataExchange` on the server
-- (src/server/contexts/sessionscontrol.cpp), and how `startTunRead` (src/client/async.cpp) and
-- `routeTunToClients` put a packet into the buffer that they send.
pub mod Packet
pub mod Receive
mod First
pub mod Sequence
pub mod Unlock
mod Tests
use vpverk.Base.{
  ℕ, zero, suc, String, Bool, true, false, not, ◌&&◌, Option, none, some, List, [], ◌∷◌, ◌++◌,
  length, take, ltb, ◌==◌, if◌then◌else◌,
}
use vpverk.Effect.{
  ErrorCode, connection_reset, Exception, runtime_error, with_code, Expected, value, unexpected,
  Outcome, ok, throw, abort, unfinished, M, continue, ◌>>=◌, ◌>>◌,
}
use vpverk.Net.{Socket}
use vpverk.Aes.{Cipher, AesSession}
use vpverk.Aes
use vpverk.Connection.{
  Connection, bytes_of, number_of, read_some_reliable, is_active_nolock, on_socket,
}
use vpverk.Session.{Link, on_con, on_aes, read_clear, clear_or_refuse, raise, pure, or_throw}

-- `max_bounds_size`
abbrev pub max_bounds_size : ℕ
max_bounds_size = 1500

module _ (C : Cipher) where
  -- The size, then the packet, encrypted as one text; `room` is the size of the out buffer.
  unfoldable pub seal : List ℕ → ℕ → AesSession C → Expected (List ℕ) × AesSession C
  seal packet room s = Aes.encrypt C (bytes_of (length packet) ++ packet) room s

  module _ (S : Socket) where
    -- `con.read_some_reliable(buffer_crypt, read_raw)`, of which the first `n` bytes are used
    unfoldable pub read_part : String → ℕ → M (Connection S) (List ℕ)
    read_part text n c =
        continue (λ b. pure (take n b))
          (continue (or_throw text) (read_some_reliable S max_bounds_size n c))

    module _ (yield : Connection S → Connection S) (rounds : ℕ) where
      -- The reads of a round, under the read lock: the packet.
      unfoldable pub receive : M (Link C S) (List ℕ)
      receive = do
        first ← read_clear C S yield rounds "error read on data exchange: " "first decrypt fail: " 4
        (if ltb max_bounds_size (number_of first)
            then raise (runtime_error "they on trees jonny")
            else pure tt)
        y ← on_con C S (read_part "error read on data exchange (2): " (number_of first))
        x ← on_aes C S (Aes.decrypt C y (number_of first))
        clear_or_refuse C S yield rounds "first decrypt fail (2): " x

      -- The session with the packets that it wrote to the tunnel.
      pub record Relay : Type 0 where
        pub link : Link C S
        pub written : List (List ℕ)

      abbrev pub on_link : {A : Type 0} → M (Link C S) A → M Relay A
      on_link f r = let (o, l) = f r.link in (o, record r { link = l })

      -- The first wait of a round: whether the loop goes on.
      unfoldable pub wait_read : M Relay (Option ErrorCode)
      wait_read = on_link (on_con C S (on_socket S (λ s. let (e, t) = S.wait_read s in (ok e, t))))

      -- `while(not lock)`; between two tries other coroutines run.
      lock_read : ℕ → M (Connection S) (Unit {0})
      lock_read zero c = (unfinished, c)
      lock_read (suc fuel) c =
          let rest = lock_read fuel (yield c) in
          if c.read_locked then rest else (ok tt, record c { read_locked = true })

      -- The lock object is destroyed however the block is left.
      abbrev pub unlock_read : {A : Type 0} → Outcome A × Link C S → Outcome A × Link C S
      unlock_read (r, l) = (r, record l { con = record l.con { read_locked = false } })

      -- Somebody used the socket between the wait and the lock.
      unfoldable pub nothing_there : M (Connection S) Bool
      nothing_there c = if S.available c.sock == 0 then is_active_nolock S c else (ok false, c)

      -- The block under the lock; none is the `continue`.
      unfoldable pub locked_round : M (Link C S) (Option (List ℕ))
      locked_round = do
        empty ← on_con C S nothing_there
        (if empty then pure none else (do x ← receive; pure (some x)))

      -- A packet goes to the tunnel.
      unfoldable pub to_tunnel : Option (List ℕ) → M Relay (Option Bool)
      to_tunnel none r = (ok none, r)
      to_tunnel (some x) r = (ok none, record r { written = r.written ++ x ∷ [] })

      -- A round once there is something to read.
      unfoldable pub serve : M Relay (Option Bool)
      unfolding lock_read
      serve = do
        on_link (on_con C S (lock_read rounds))
        got ← on_link (λ l. unlock_read (locked_round l))
        to_tunnel got

      unfoldable pub after_wait : Option ErrorCode → M Relay (Option Bool)
      after_wait (some c) = pure (some false)
      after_wait none = serve

      -- One round of the loop: none to go on, or what `performDataExchange` returns.
      unfoldable pub round : M Relay (Option Bool)
      round = do e ← wait_read; after_wait e

      -- `performDataExchange`, for at most so many rounds; it stops only at an error.
      pub perform_data_exchange : ℕ → M Relay Bool
      unfolding round
      perform_data_exchange zero r = (unfinished, r)
      perform_data_exchange (suc fuel) r =
          continue (λ o s. elim o [ some b ↦ (ok b, s) | none ↦ perform_data_exchange fuel s ])
            (round r)
