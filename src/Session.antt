-- ===== src/Session.antt =====
-- A session on the server up to the data exchange: `exchangeAESkey`, `authenticateUser` and `sendIp`
-- (src/server/contexts/sessionscontrol.cpp), and the opening of one on the client (src/client/async.cpp). The
-- traps of the `breakpoint` macro are taken as left at once.
pub mod Salt
pub mod Exchange
pub mod Keys
pub mod Access
mod Tests
use vpverk.Base.{
  ℕ, zero, suc, ◌+◌, ◌-◌, ◌/◌, ◌%◌, ◌^◌, String, Bool, true, false, not, ◌&&◌, Option, none, some,
  List, [], ◌∷◌, ◌++◌, length, take, drop, ltb, ◌==◌, if◌then◌else◌,
}
use vpverk.Effect.{
  ErrorCode, connection_reset, Exception, runtime_error, with_code, with_number, Expected, value,
  unexpected, Outcome, ok, throw, abort, unfinished, M, continue, ◌>>=◌, ◌>>◌,
}
use vpverk.Net.{Socket}
use vpverk.Aes.{Cipher, AesSession, create}
use vpverk.Aes
use vpverk.Rsa.{Checked, good, bad, RsaKey}
use vpverk.Rsa
use vpverk.Settings.{Login, binary_search}
use vpverk.Connection.{Connection, bytes_of, number_of, read_some_reliable, send_all, close}
use Salt.{add_salt}

abbrev pub raise : {A : Type 0} {T : Type 0} → Exception → M T A
raise e s = (throw e, s)

abbrev pub pure : {A : Type 0} {T : Type 0} → A → M T A
pure a s = (ok a, s)

-- `.or_else(throw)` on what was awaited
abbrev pub or_throw : {A : Type 0} {T : Type 0} → String → Expected A → M T A
or_throw text (value a) = pure a
or_throw text (unexpected e) = raise (with_code text e)

-- `"Protocol violation"`
abbrev pub protocol_violation : List ℕ
protocol_violation =
    b'P' ∷ b'r' ∷ b'o' ∷ b't' ∷ b'o' ∷ b'c' ∷ b'o' ∷ b'l' ∷ b' ' ∷ b'v' ∷ b'i' ∷ b'o' ∷ b'l' ∷ b'a'
    ∷ b't' ∷ b'i' ∷ b'o' ∷ b'n' ∷ []

-- `"Decryption failure"`
abbrev pub decryption_failure : List ℕ
decryption_failure =
    b'D' ∷ b'e' ∷ b'c' ∷ b'r' ∷ b'y' ∷ b'p' ∷ b't' ∷ b'i' ∷ b'o' ∷ b'n' ∷ b' ' ∷ b'f' ∷ b'a' ∷ b'i'
    ∷ b'l' ∷ b'u' ∷ b'r' ∷ b'e' ∷ []

-- `"Encryption failure"`
abbrev encryption_failure : List ℕ
encryption_failure =
    b'E' ∷ b'n' ∷ b'c' ∷ b'r' ∷ b'y' ∷ b'p' ∷ b't' ∷ b'i' ∷ b'o' ∷ b'n' ∷ b' ' ∷ b'f' ∷ b'a' ∷ b'i'
    ∷ b'l' ∷ b'u' ∷ b'r' ∷ b'e' ∷ []

-- `"Send failure ыыыыыыыыыыыыы"`
abbrev send_failure : List ℕ
send_failure =
    b'S' ∷ b'e' ∷ b'n' ∷ b'd' ∷ b' ' ∷ b'f' ∷ b'a' ∷ b'i' ∷ b'l' ∷ b'u' ∷ b'r' ∷ b'e' ∷ b' ' ∷ 209
    ∷ 139 ∷ 209 ∷ 139 ∷ 209 ∷ 139 ∷ 209 ∷ 139 ∷ 209 ∷ 139 ∷ 209 ∷ 139 ∷ 209 ∷ 139 ∷ 209 ∷ 139 ∷ 209
    ∷ 139 ∷ 209 ∷ 139 ∷ 209 ∷ 139 ∷ 209 ∷ 139 ∷ 209 ∷ 139 ∷ []

module _ (C : Cipher) where
  -- The server's session from the 64 bytes it decrypted.
  unfoldable pub session_from : Bool → List ℕ → Expected (AesSession C)
  session_from allocated raw =
      let k = add_salt raw in
      create C allocated (take 32 k) (take 16 (drop 32 k)) (take 16 (drop 48 k))

  -- What the client of `startAsync` puts under RSA.
  abbrev pub client_input : List ℕ → List ℕ → List ℕ → List ℕ
  client_input key iv1 iv2 = key ++ (iv2 ++ iv1)

  -- What the client sends first: the four bytes of `size_rsa`, and the text under RSA.
  abbrev pub client_opening : List ℕ → List ℕ
  client_opening y = bytes_of 4 ++ y

  -- The client's own session.
  unfoldable pub client_session : Bool → List ℕ → List ℕ → List ℕ → Expected (AesSession C)
  client_session allocated key iv1 iv2 = create C allocated (add_salt key) iv1 iv2

  module _ (S : Socket) where
    -- A connection with its AES session.
    pub record Link : Type 0 where
      pub con : Connection S
      pub aes : AesSession C

    abbrev pub on_con : {A : Type 0} → M (Connection S) A → M Link A
    on_con f l = let (r, c) = f l.con in (r, record l { con = c })

    abbrev pub on_aes :
        {A : Type 0} → (AesSession C → Expected A × AesSession C) → M Link (Expected A)
    on_aes f l = let (r, s) = f l.aes in (ok r, record l { aes = s })

    -- `con.read_some_reliable(buffer)` for a whole buffer, with the throw behind it
    unfoldable pub read_or_throw : String → ℕ → M (Connection S) (List ℕ)
    read_or_throw text n c = continue (or_throw text) (read_some_reliable S n 0 c)

    module _ (yield : Connection S → Connection S) (rounds : ℕ) where
      -- `co_await con.close(reason)`, then a throw
      unfoldable pub refuse : {A : Type 0} → List ℕ → Exception → M (Connection S) A
      refuse reason e = do close S yield rounds reason; raise e

      -- The size that comes first is the one expected.
      unfoldable pub expect_size : List ℕ → M (Connection S) (Unit {0})
      unfolding refuse
      expect_size b =
          if number_of b == 256
          then pure tt
          else refuse protocol_violation (with_number "wrong first msg size: " (number_of b))

      unfoldable pub open_key : RsaKey → List ℕ → M (Connection S) (List ℕ)
      open_key key y c = elim (Rsa.decrypt key y 64) [
        | ok d ↦ elim d [
          | bad e ↦ (throw (runtime_error "fail rsa decrypt: "), c)
          | good x ↦
              if length x == 64
              then (ok x, c)
              else (throw (runtime_error "fail rsa decrypt - expected size not match"), c)
        ]
        | throw e ↦ (throw e, c)
        | abort m ↦ (abort m, c)
        | unfinished ↦ (unfinished, c)
      ]

      -- The session, or the connection closed and a throw
      unfoldable pub accept : Expected (AesSession C) → M (Connection S) (AesSession C)
      unfolding refuse
      accept (value s) = pure s
      accept (unexpected e) = refuse protocol_violation (with_code "error creating aes session: " e)

      -- `exchangeAESkey`; `allocated` is that of `create`.
      unfoldable pub exchange_aes_key : RsaKey → Bool → M (Connection S) (AesSession C)
      exchange_aes_key key allocated = do
        first ← read_or_throw "error read on key exchange: " 4
        expect_size first
        y ← read_or_throw "error read on key exchange: " 256
        raw ← open_key key y
        accept (session_from allocated raw)

      -- the text in clear, or the connection closed and a throw
      unfoldable pub clear_or_refuse : String → Expected (List ℕ) → M Link (List ℕ)
      unfolding refuse
      clear_or_refuse text (value x) = pure x
      clear_or_refuse text (unexpected e) = on_con (refuse decryption_failure (with_code text e))

      -- `n` bytes read and decrypted into a buffer of `n`
      unfoldable pub read_clear : String → String → ℕ → M Link (List ℕ)
      read_clear text fail n = do
        y ← on_con (read_or_throw text n)
        x ← on_aes (Aes.decrypt C y n)
        clear_or_refuse fail x

      -- `authenticateUser`
      unfoldable pub authenticate_user : List Login → M Link Bool
      authenticate_user allowed = do
        first ← read_clear "error read on authentication: " "first decrypt fail: " 4
        (if ltb 200 (number_of first) then raise (runtime_error "they on trees jonny") else pure tt)
        login ←
            read_clear "error read on authentication (2): " "first decrypt fail (2): "
              (number_of first)
        pure (binary_search allowed login)

      -- The bytes of `sendIp`: the size 4, and the address.
      abbrev pub ip_message : ℕ → List ℕ
      ip_message ip = (4 ∷ 0 ∷ 0 ∷ 0 ∷ []) ++ bytes_of ip

      unfoldable pub sent_or_refuse : Expected (Unit {0}) → M Link (Unit {0})
      unfolding refuse
      sent_or_refuse (value u) = pure tt
      sent_or_refuse (unexpected e) = on_con (refuse send_failure (with_code "first send fail: " e))

      unfoldable pub send_crypted : Expected (List ℕ) → M Link (Unit {0})
      unfolding refuse
      send_crypted (value y) = do r ← on_con (send_all S y); sent_or_refuse r
      send_crypted (unexpected e) =
          on_con (refuse encryption_failure (with_code "first encrypt fail: " e))

      -- `sendIp`
      unfoldable pub send_ip : ℕ → M Link (Unit {0})
      send_ip ip = do y ← on_aes (Aes.encrypt C (ip_message ip) 8); send_crypted y
