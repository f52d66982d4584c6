-- ===== src/Aes/Stream.antt =====
-- What one end encrypts the other decrypts, over any number of messages.
use vpverk.Base.{ℕ, ◌<◌, ◌^◌, ◌≤◌, ◌≡◌, refl, Bool, false, some, List, length, ltb, arith}
use vpverk.Effect.{value}
use vpverk.Aes.{Cipher, int_size, AesSession, create, encrypt, decrypt}

module _ (C : Cipher) where
  open C use {Context, same_start, same_length, undoes, splits}

  -- `r` is ready to read what `s` writes.
  abbrev pub Follows : AesSession C → AesSession C → Type 0
  Follows s r = s.encrypt_ctx ≡ r.decrypt_ctx

  -- Each end is ready to read what the other writes.
  abbrev pub Paired : AesSession C → AesSession C → Type 0
  Paired s r = Follows s r × Follows r s

  create_inits :
      (a : Bool) (key iv₁ iv₂ : List ℕ) (s : AesSession C)
      → create C a key iv₁ iv₂ ≡ value s
      → (C.encrypt_init key iv₁ ≡ some s.encrypt_ctx)
        × (C.decrypt_init key iv₂ ≡ some s.decrypt_ctx)
  unfolding create
  create_inits a key iv₁ iv₂ s e = ground arith

  -- Two sessions made from one key, with the vectors swapped, are paired: each can read what the
  -- other writes.
  pub create-Paired :
      (a b : Bool) (key iv₁ iv₂ : List ℕ) (s r : AesSession C)
      → create C a key iv₁ iv₂ ≡ value s
      → create C b key iv₂ iv₁ ≡ value r
      → Paired s r
  create-Paired a b key iv₁ iv₂ s r e f =
      let (se, sd) = create_inits a key iv₁ iv₂ s e in
      let (re, rd) = create_inits b key iv₂ iv₁ r f in
      (same_start key iv₁ _ _ se rd, same_start key iv₂ _ _ re sd)

  pub encrypt_update_of :
      (x y : List ℕ) (n : ℕ) (s s' : AesSession C)
      → encrypt C x n s ≡ (value y, s')
      → (C.encrypt_update s.encrypt_ctx (int_size x) x ≡ some (y, s'.encrypt_ctx))
        × (s'.decrypt_ctx ≡ s.decrypt_ctx)
  unfolding encrypt
  encrypt_update_of x y n s s' e = ground arith

  -- A text that one session encrypted is decrypted by one that follows it, into any buffer with
  -- room for it, and the two go on in step; the other direction is not touched.
  decrypt-encrypt :
      (x y : List ℕ) (n m : ℕ) (s s' r : AesSession C)
      → Follows s r
      → length x < 2 ^ 31
      → length x ≤ m
      → encrypt C x n s ≡ (value y, s')
      → (r' : AesSession C) × (decrypt C y m r ≡ (value x, r'))
        × Follows s' r'
        × (r'.encrypt_ctx ≡ r.encrypt_ctx)
        × (s'.decrypt_ctx ≡ s.decrypt_ctx)
  unfolding decrypt
  decrypt-encrypt x y n m s s' r f short room e =
      let (u, keeps) = encrypt_update_of x y n s s' e in
      let back : C.decrypt_update r.decrypt_ctx (int_size y) y ≡ some (x, s'.encrypt_ctx) =
        rw (← f) (undoes s.encrypt_ctx s'.encrypt_ctx x y short u) in
      let l = same_length s.encrypt_ctx s'.encrypt_ctx x y short u in
      let fits : ltb m (length y) ≡ false = ground arith in
      (record r { decrypt_ctx = s'.encrypt_ctx }, rw (fits, back), refl, refl, keeps)
