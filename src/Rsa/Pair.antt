-- ===== src/Rsa/Pair.antt =====
-- The two keys of a pair.
use vpverk.Base.{ℕ, ◌≡◌, ◌≤◌, ◌<◌, true, some, List, length, arith}
use vpverk.Effect.{ok}
use vpverk.Rsa.{good, bad, Pkey, private_key, public_key, decrypt, encrypt}

-- Every set-up call succeeds.
pub record IsReady (k : Pkey) : Type 0 where
  pub ctx : k.new_ctx ≡ true
  pub dec : k.decrypt_init ≡ true
  pub enc : k.encrypt_init ≡ true
  pub pad : k.set_padding ≡ true
  pub md : k.set_oaep_md ≡ true

-- `priv` is the private key of `pub_key`, of 2048 bits. The sizes reported are the documented
-- ones: with no out buffer OpenSSL gives the most that a text can take, the size of the key.
pub record IsPair (priv pub_key : Pkey) : Type 0 where
  pub priv_ready : IsReady priv
  pub pub_ready : IsReady pub_key
  pub decrypt_bound : (y : List ℕ) → priv.decrypt_size y ≡ some 256
  pub encrypt_bound : (x : List ℕ) → pub_key.encrypt_size x ≡ some 256
  pub long : (x y : List ℕ) → pub_key.encrypt_text x ≡ some y → length y ≡ 256
  pub opens : (x y : List ℕ) → pub_key.encrypt_text x ≡ some y → priv.decrypt_text y ≡ some x

module _ (priv pub_key : Pkey) (p : IsPair priv pub_key) where
  open p use {priv_ready, pub_ready, decrypt_bound, encrypt_bound, long, opens}

  encrypt_of :
      (x y : List ℕ) (n : ℕ)
      → encrypt (record { key_type = public_key; key = pub_key }) x n ≡ good y
      → pub_key.encrypt_text x ≡ some y
  unfolding encrypt
  encrypt_of x y n e = ground (arith, encrypt_bound x)

  -- For a pair of keys of 2048 bits, what the public key encrypts the private key decrypts, into an
  -- out buffer of 256 bytes or more.
  decrypt-encrypt_pair :
      (x y : List ℕ) (n m : ℕ)
      → 256 ≤ m
      → encrypt (record { key_type = public_key; key = pub_key }) x n ≡ good y
      → decrypt (record { key_type = private_key; key = priv }) y m ≡ ok (good x)
  unfolding decrypt
  decrypt-encrypt_pair x y n m room e =
      let t = encrypt_of x y n e in
      ground (
        arith,
        decrypt_bound y,
        long x y t,
        opens x y t,
        priv_ready.ctx,
        priv_ready.dec,
        priv_ready.pad,
        priv_ready.md,
      )

  -- For a pair of keys of 2048 bits, the private key decrypts no 256 bytes into an out buffer of fewer
  -- than 256, however short the text is: the answer is that the buffer is too small.
  pub decrypt_small :
      (y : List ℕ) (m : ℕ)
      → m < 256
      → length y ≡ 256
      → decrypt (record { key_type = private_key; key = priv }) y m
        ≡ ok (bad "buffer size (decrypt len > buffer.size)")
  unfolding decrypt
  decrypt_small y m short l =
      ground (arith, decrypt_bound y, priv_ready.ctx, priv_ready.dec, priv_ready.pad, priv_ready.md)
