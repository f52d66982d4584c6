-- ===== src/Client/Start.antt =====
-- The start of the client: `startAsync` (src/client/async.cpp) up to its two loops. How the connect
-- ends, the key file, the random bytes and the contexts of OpenSSL are arguments.
use vpverk.Base.{
  ℕ, ◌+◌, Bool, true, false, Option, none, some, List, ◌++◌, length, ltb, ◌==◌, if◌then◌else◌,
  replicate,
}
use vpverk.Effect.{ErrorCode, runtime_error, with_code, with_number, ok, abort, M, ◌>>=◌, ◌>>◌}
use vpverk.Net.{Socket, send, reliable_is_open}
use vpverk.Aes.{Cipher, AesSession}
use vpverk.Aes
use vpverk.Rsa.{Checked, good, bad, RsaKey, Pkey, from_pem_file, public_key}
use vpverk.Rsa
use vpverk.Connection.{number_of}
use vpverk.Session.{raise, pure, or_throw, client_input, client_opening, client_session}
use vpverk.Client.{End, on_sock, with_aes, read_all, read_block_size}
use vpverk.Client.Host.{Command, Host, setup_tun}

-- What `startAsync` gets from outside: the error of the connect, the key file and what its PEM
-- reader gives, the random bytes, whether the contexts are allocated, and whether `tun_ip.raw` can
-- be written.
pub record Given : Type 0 where
  pub connect_error : Option ErrorCode
  pub opened : Bool
  pub parsed : Option Pkey
  pub key : List ℕ
  pub iv1 : List ℕ
  pub iv2 : List ℕ
  pub allocated : Bool
  pub writable : Bool

module _ (C : Cipher) (S : Socket) where
  -- The client with its host.
  pub record Client : Type 0 where
    pub end : End C S
    pub host : Host

  abbrev pub on_end : {A : Type 0} → M (End C S) A → M Client A
  on_end f c = let (r, e) = f c.end in (r, record c { end = e })

  abbrev pub on_host : {A : Type 0} → M Host A → M Client A
  on_host f c = let (r, h) = f c.host in (r, record c { host = h })

  -- `THROW_EC(ec)`
  abbrev pub throw_code : {T : Type 0} → Option ErrorCode → M T (Unit {0})
  throw_code none = pure tt
  throw_code (some c) = raise (with_code "" c)

  abbrev rsa_or_throw : {T : Type 0} → Checked RsaKey → M T RsaKey
  rsa_or_throw (good k) = pure k
  rsa_or_throw (bad e) = raise (runtime_error "rsa key creation error: ")

  abbrev text_or_throw : {T : Type 0} → Checked (List ℕ) → M T (List ℕ)
  text_or_throw (good y) = pure y
  text_or_throw (bad e) = raise (runtime_error "rsa encrypt error: ")

  -- The block with the RSA key: the session is set, and the text under RSA is the result.
  unfoldable open_session : Given → M (End C S) (List ℕ)
  open_session g = do
    rsa ← rsa_or_throw (from_pem_file g.opened g.parsed public_key)
    aes ← or_throw "" (client_session C g.allocated g.key g.iv1 g.iv2)
    λ e. (ok tt, record e { aes = aes })
    y ← text_or_throw (Rsa.encrypt rsa (client_input C g.key g.iv1 g.iv2) 256)
    (if length y == 256 then pure tt else λ e. (abort "cussert: used.value() == 256", e))
    pure y

  -- The opening message, and what the server may have said to it.
  unfoldable pub exchange_key : Given → M (End C S) (Unit {0})
  unfolding open_session
  exchange_key g = do
    y ← open_session g
    sent ← on_sock C S (send S (client_opening C y))
    or_throw "" sent
    state ← on_sock C S (λ s. let (r, t) = reliable_is_open S s in (ok r, t))
    is_open ← or_throw "" state
    (if is_open then pure tt else raise (runtime_error "socket was closed during key exchange"))
    λ e.
        if ltb 0 (S.available e.sock)
        then (do read_block_size C S false; λ k. (abort "unexpected valid read", k)) e
        else (ok tt, e)

  -- `login_buf_raw`: four bytes that `resize` sets to zero, and the login.
  abbrev pub login_message : List ℕ → List ℕ
  login_message login = replicate 4 0 ++ login

  -- The login goes out, twice.
  unfoldable pub send_login : List ℕ → M (End C S) (Unit {0})
  send_login login = do
    r ← with_aes C S (Aes.encrypt C (login_message login) (4 + length login))
    y ← or_throw "" r
    first ← on_sock C S (send S y)
    or_throw "" first
    second ← on_sock C S (send S y)
    or_throw "" second

  -- The address that the server gives.
  unfoldable pub read_address : M (End C S) ℕ
  read_address = do
    n ← read_block_size C S true
    (if n == 4
        then pure tt
        else raise (with_number "expected ip (so size should be 4), but size is: " n))
    y ← read_all C S 4
    r ← with_aes C S (Aes.decrypt C y 4)
    x ← or_throw "" r
    pure (number_of x)

  -- `ip_file << ip_bytes_raw`; a file that cannot be opened is left as it is.
  unfoldable pub keep_address : Bool → ℕ → M Host (Unit {0})
  keep_address true ip h = (ok tt, record h { tun_ip = some ip })
  keep_address false ip h = (ok tt, h)

  module _ (succeeds : List Command → Command → Bool) where
    -- `startAsync` up to the start of `startTunRead` and `startSocketRead`
    unfoldable pub start_async : Given → List ℕ → M Client (Unit {0})
    start_async g login = do
      throw_code g.connect_error
      on_end (exchange_key g)
      on_end (send_login login)
      ip ← on_end read_address
      on_host (keep_address g.writable ip)
      on_host (setup_tun succeeds ip)
