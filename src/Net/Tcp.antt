-- ===== src/Net/Tcp.antt =====
-- What the sources use of `asio::ip::tcp::socket`, which is not under them, and
-- `cvk_asio::reliable_is_open` (src/shared/asioapi.cpp).
use vpverk.Base.{
  ℕ, ◌≤◌, ◌<◌, ◌≡◌, Bool, true, false, Option, none, some, List, ◌++◌, length, take, arith,
  if◌then◌else◌,
}
use vpverk.Effect.{
  ErrorCode, would_block, try_again, eof, connection_reset, Expected, value, unexpected,
}

-- The state of a socket with the rest of the system. `sent` is all that the socket accepted for
-- sending and `received` all that it handed over. The laws are those of the documentation: a
-- transfer moves at least one byte, at most as many as asked for, in order; one that fails moves
-- none; a peek moves none. `drain_some` is the non-blocking `read_some` that `Connection::close`
-- makes after a shutdown of both directions: it gives the number of bytes taken from those that
-- are still available, to which none are added any more. `peeked n` is what a buffer of `n` zeros holds right
-- after the start of an asynchronous receive with `message_peek` into it: the receive may have been
-- carried out, in part or not at all.
pub record Socket : Type 1 where
  pub State : Type 0
  pub is_open : State → Bool
  pub peek : State → Option ErrorCode × State
  pub write_some : List ℕ → State → Expected ℕ × State
  pub read_some : ℕ → State → Expected (List ℕ) × State
  pub wait_read : State → Option ErrorCode × State
  pub available : State → ℕ
  pub shutdown : State → Option ErrorCode × State
  pub drain_some : State → ℕ × State
  pub peeked : ℕ → State → List ℕ
  pub close : State → Option ErrorCode × State
  pub sent : State → List ℕ
  pub received : State → List ℕ
  pub peek_moves : (s : State) → (sent (peek s).1 ≡ sent s) × (received (peek s).1 ≡ received s)
  pub write_moves :
      (b : List ℕ) (s t : State) (n : ℕ)
      → 1 ≤ length b
      → write_some b s ≡ (value n, t)
      → (1 ≤ n) × (n ≤ length b) × (sent t ≡ sent s ++ take n b) × (received t ≡ received s)
  pub write_fails :
      (b : List ℕ) (s t : State) (e : ErrorCode)
      → write_some b s ≡ (unexpected e, t)
      → (sent t ≡ sent s) × (received t ≡ received s)
  pub read_moves :
      (n : ℕ) (s t : State) (b : List ℕ)
      → 1 ≤ n
      → read_some n s ≡ (value b, t)
      → (1 ≤ length b) × (length b ≤ n) × (received t ≡ received s ++ b) × (sent t ≡ sent s)
  pub read_fails :
      (n : ℕ) (s t : State) (e : ErrorCode)
      → read_some n s ≡ (unexpected e, t)
      → (received t ≡ received s) × (sent t ≡ sent s)
  pub shutdown_moves : (s : State) → sent (shutdown s).1 ≡ sent s
  pub drain_moves : (s : State) → sent (drain_some s).1 ≡ sent s
  pub drain_less : (s : State) → 1 ≤ (drain_some s).0 → available (drain_some s).1 < available s
  pub close_moves : (s : State) → sent (close s).1 ≡ sent s

-- What the code of the peek comes to; `none` is no error.
unfoldable pub verdict : Option ErrorCode → Expected Bool
verdict none = value true
verdict (some would_block) = value true
verdict (some try_again) = value true
verdict (some eof) = value false
verdict (some connection_reset) = value false
verdict (some e) = unexpected e

module _ (S : Socket) where
  open S use {State, is_open, peek, sent, received, peek_moves}

  unfoldable pub reliable_is_open : State → Expected Bool × State
  unfolding verdict
  reliable_is_open s =
      if is_open s then (let (e, t) = peek s in (verdict e, t)) else (value false, s)

  -- The check moves no byte.
  pub reliable_is_open_moves :
      (s : State)
      → (sent (reliable_is_open s).1 ≡ sent s) × (received (reliable_is_open s).1 ≡ received s)
  unfolding reliable_is_open
  reliable_is_open_moves s = ground (arith, peek_moves s)
