-- ===== src/Aes.antt =====
-- src/shared/cvkaes.hpp: an AES-256-CTR session with one context for each direction.
pub mod Duplex
pub mod Stream
mod Tests
pub mod Contexts
pub mod Box
use vpverk.Base.{
  ℕ, ◌<◌, ◌%◌, ◌^◌, ◌≤◌, ◌≡◌, Bool, not, ◌&&◌, ◌||◌, Option, none, some, List, ◌++◌, length, take,
  drop, ltb, ◌==◌, if◌then◌else◌,
}
use vpverk.Effect.{
  ErrorCode, no_buffer_space, invalid_argument, not_enough_memory, io_error, Expected, value,
  unexpected,
}

-- `static_cast<int>(in.size())`, by its 32 bits; 2 ^ 31 and above are the negative ones.
abbrev pub int_size : List ℕ → ℕ
int_size x = length x % 2 ^ 32

-- What the sources use of OpenSSL's EVP interface with AES-256-CTR. An update gets a length as an `int`
-- and the bytes. The laws are those of counter mode, for a length that an `int` holds: the output is as
-- long as the input, a call may be split, and decryption from the state in which a text was encrypted
-- gives the text back and ends in the same state.
pub record Cipher : Type 1 where
  pub Context : Type 0
  pub encrypt_init : List ℕ → List ℕ → Option Context
  pub decrypt_init : List ℕ → List ℕ → Option Context
  pub encrypt_update : Context → ℕ → List ℕ → Option (List ℕ × Context)
  pub decrypt_update : Context → ℕ → List ℕ → Option (List ℕ × Context)
  pub same_start :
      (k iv : List ℕ) (c d : Context)
      → encrypt_init k iv ≡ some c
      → decrypt_init k iv ≡ some d
      → c ≡ d
  pub same_length :
      (c d : Context) (x y : List ℕ)
      → length x < 2 ^ 31
      → encrypt_update c (int_size x) x ≡ some (y, d)
      → length y ≡ length x
  pub undoes :
      (c d : Context) (x y : List ℕ)
      → length x < 2 ^ 31
      → encrypt_update c (int_size x) x ≡ some (y, d)
      → decrypt_update c (int_size y) y ≡ some (x, d)
  pub splits :
      (c d : Context) (y z x : List ℕ)
      → length (y ++ z) < 2 ^ 31
      → decrypt_update c (int_size (y ++ z)) (y ++ z) ≡ some (x, d)
      → (m : Context) × (decrypt_update c (int_size y) y ≡ some (take (length y) x, m))
        × (decrypt_update m (int_size z) z ≡ some (drop (length y) x, d))

module _ (C : Cipher) where
  open C use {Context, encrypt_init, decrypt_init, encrypt_update, decrypt_update}

  -- `AesSession`, with both contexts allocated
  pub record AesSession : Type 0 where
    pub encrypt_ctx : Context
    pub decrypt_ctx : Context

  both_ready : Option Context → Option Context → Expected AesSession
  both_ready (some e) (some d) = value (record { encrypt_ctx = e; decrypt_ctx = d })
  both_ready (some e) none = unexpected invalid_argument
  both_ready none d = unexpected invalid_argument

  -- `create`; `allocated` says whether both calls of EVP_CIPHER_CTX_new gave a context.
  unfoldable pub create : Bool → List ℕ → List ℕ → List ℕ → Expected AesSession
  unfolding both_ready
  create allocated key encrypt_iv decrypt_iv =
      if not (length key == 32) || (not (length encrypt_iv == 16) || not (length decrypt_iv == 16))
      then unexpected invalid_argument
      else if not allocated
      then unexpected not_enough_memory
      else both_ready (encrypt_init key encrypt_iv) (decrypt_init key decrypt_iv)

  -- `encrypt(in, out)`: the out buffer is given by its size; the result is what is written to it.
  unfoldable pub encrypt : List ℕ → ℕ → AesSession → Expected (List ℕ) × AesSession
  encrypt x size s =
      if ltb size (length x)
      then (unexpected no_buffer_space, s)
      else elim (encrypt_update s.encrypt_ctx (int_size x) x) [
        | some (y, c) ↦ (value y, record s { encrypt_ctx = c })
        | none ↦ (unexpected io_error, s)
      ]

  unfoldable pub decrypt : List ℕ → ℕ → AesSession → Expected (List ℕ) × AesSession
  decrypt y size s =
      if ltb size (length y)
      then (unexpected no_buffer_space, s)
      else elim (decrypt_update s.decrypt_ctx (int_size y) y) [
        | some (x, c) ↦ (value x, record s { decrypt_ctx = c })
        | none ↦ (unexpected io_error, s)
      ]
