-- ===== src/Client.antt =====
-- The client while packets go both ways: `read_block_size`, `startTunRead` and `startSocketRead`
-- (src/client/async.cpp). Both loops share the socket and the session.
pub mod Host
pub mod Start
pub mod Silence
pub mod Login
pub mod Address
pub mod Downlink
pub mod Uplink
pub mod Main
pub mod Left
mod Tests
use vpverk.Base.{
  ℕ, zero, suc, ◌+◌, ◌-◌, ◌^◌, String, Bool, true, false, not, ◌&&◌, List, [], ◌∷◌, ◌++◌, length,
  take, ltb, ◌==◌, if◌then◌else◌, replicate,
}
use vpverk.Effect.{
  ErrorCode, eof, operation_canceled, Exception, runtime_error, with_code, with_number, with_text,
  Expected, value, unexpected, Outcome, ok, throw, abort, unfinished, M, continue, ◌>>=◌, ◌>>◌,
}
use vpverk.Net.{Socket, send, read_some, read_some_unreliable}
use vpverk.Aes.{Cipher, AesSession}
use vpverk.Aes
use vpverk.Connection.{number_of, error_prefix}
use vpverk.Session.{raise, pure, or_throw}
use vpverk.Traffic.{seal}

-- `max_possible_ip_packet_size`
abbrev pub max_packet : ℕ
max_packet = 1500

-- `operator==` of std::string, by bytes
unfoldable pub same_bytes : List ℕ → List ℕ → Bool
same_bytes [] [] = true
same_bytes [] (b ∷ y) = false
same_bytes (a ∷ x) [] = false
same_bytes (a ∷ x) (b ∷ y) = a == b && same_bytes x y

-- `std::string(const char*)`: the bytes before the first zero.
unfoldable pub until_zero : List ℕ → List ℕ
until_zero [] = []
until_zero (b ∷ x) = let rest = until_zero x in if b == 0 then [] else b ∷ rest

-- `e.what()`, by the text that starts it
abbrev what : Exception → String
what (runtime_error t) = t
what (with_code t c) = t
what (with_number t n) = t
what (with_text t x) = t

-- `catch(std::exception const& e){ cuabort(e.what()); }`
abbrev pub or_abort : {A T : Type 0} → Outcome A × T → Outcome A × T
or_abort (throw e, s) = (abort (what e), s)
or_abort (ok a, s) = (ok a, s)
or_abort (abort m, s) = (abort m, s)
or_abort (unfinished, s) = (unfinished, s)

module _ (C : Cipher) (S : Socket) where
  -- The socket, the session, and the packets that were written to the tunnel.
  pub record End : Type 0 where
    pub sock : S.State
    pub aes : AesSession C
    pub written : List (List ℕ)

  abbrev pub on_sock : {A : Type 0} → (S.State → Outcome A × S.State) → M End A
  on_sock f e = let (r, s) = f e.sock in (r, record e { sock = s })

  abbrev pub with_aes :
      {A : Type 0} → (AesSession C → Expected A × AesSession C) → M End (Expected A)
  with_aes f e = let (r, s) = f e.aes in (ok r, record e { aes = s })

  -- a whole buffer of `n` bytes, or the throw
  unfoldable pub read_all : ℕ → M End (List ℕ)
  read_all n = do r ← on_sock (read_some S n 0); or_throw "" r

  -- The size in clear.
  unfoldable pub clear_size : Bool → List ℕ → M End (List ℕ)
  clear_size true b = do x ← with_aes (Aes.decrypt C b 4); or_throw "" x
  clear_size false b = pure b

  -- What ends the read of an error: nothing but the end of the stream may follow the text.
  after_text : List ℕ → Expected (List ℕ) → M End ℕ
  after_text text (value b) = raise (runtime_error "expected ec, but got read")
  after_text text (unexpected eof) = raise (with_text "error from server" (until_zero text))
  after_text text (unexpected c) = raise (with_code "expected normal ec == eof, but got: " c)

  -- The body of the loop once the prefix is there. It always throws.
  unfoldable pub server_error : M End ℕ
  unfolding after_text
  server_error = do
    r ← on_sock (read_some_unreliable S 256 0)
    text ← or_throw "" r
    again ← on_sock (read_some_unreliable S 256 0)
    after_text text again

  -- The end of the size, with `seen` for `_error` when it is compared.
  unfoldable pub size_or_error : List ℕ → List ℕ → List ℕ → M End ℕ
  size_or_error seen b x =
      if number_of b == 2 ^ 32 - 1 && same_bytes seen error_prefix
      then server_error
      else pure (number_of x)

  -- `read_block_size`. Nothing awaits the receive that is to fill `_error`, so the text is compared
  -- as it is when that receive has been started, and `ec` is still no error.
  unfoldable pub read_block_size : Bool → M End ℕ
  read_block_size encryption_used = do
    b ← read_all 4
    x ← clear_size encryption_used b
    λ e. size_or_error (S.peeked 8 e.sock) b x e

  -- `if(not res and res.error() == operation_canceled){continue;} THROW_EXP_EC(res)`; none is the
  -- `continue`.
  unfoldable pub unless_canceled : {A B : Type 0} → (A → M End B) → B → Expected A → M End B
  unless_canceled f b (value a) = f a
  unless_canceled f b (unexpected operation_canceled) = pure b
  unless_canceled f b (unexpected c) = raise (with_code "" c)

  -- A round of `startTunRead`; an empty packet is a timeout of the read.
  unfoldable pub tun_round : List ℕ → M End (Unit {0})
  tun_round packet = if length packet == 0 then pure tt else (do
    r ← with_aes (seal C packet (max_packet + 4))
    y ← or_throw "" r
    sent ← on_sock (send S y)
    unless_canceled pure tt sent)

  tun_rounds : List (List ℕ) → M End (Unit {0})
  tun_rounds [] = pure tt
  tun_rounds (p ∷ packets) = do tun_round p; tun_rounds packets

  -- `startTunRead`, with what its reads give until the stop is requested
  unfoldable pub start_tun_read : List (List ℕ) → M End (Unit {0})
  unfolding tun_rounds
  start_tun_read packets e = or_abort (tun_rounds packets e)

  -- `Tun::instance().write(packet)`
  abbrev tun_write : List ℕ → M End (Unit {0})
  tun_write x e = (ok tt, record e { written = e.written ++ x ∷ [] })

  -- A packet of `n` bytes, once it is there: the first `n` bytes of `buffer_crypt`
  unfoldable pub to_tunnel : ℕ → List ℕ → M End (Unit {0})
  to_tunnel n b = do
    r ← with_aes (Aes.decrypt C (take n b) max_packet)
    x ← or_throw "" r
    tun_write x

  -- A round of `startSocketRead`, with the `cussert` as it stands
  unfoldable pub socket_round : M End (Unit {0})
  socket_round = do
    n ← read_block_size true
    (if ltb max_packet n then pure tt else λ e.
        (abort "cussert: read_size > max_possible_ip_packet_size", e))
    r ← on_sock (read_some S max_packet n)
    unless_canceled (to_tunnel n) tt r

  socket_rounds : ℕ → M End (Unit {0})
  socket_rounds zero = pure tt
  socket_rounds (suc n) = do socket_round; socket_rounds n

  -- `startSocketRead`, for a stop that is requested after `rounds` rounds
  unfoldable pub start_socket_read : ℕ → M End (Unit {0})
  unfolding socket_rounds
  start_socket_read rounds e = or_abort (socket_rounds rounds e)
