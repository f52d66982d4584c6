-- ===== src/Traffic/Packet.antt =====
-- A packet that one end sealed, as the other end receives it.
use vpverk.Base.{
  ◌<◌, ◌^◌, ℕ, suc, ◌+◌, ◌≤◌, ◌≡◌, refl, subst, String, false, some, List, ◌++◌, length, take, drop,
  take-append-drop, take_at, drop_at, length-append, length-take, length-drop, arith, ltb, inr,
}
use vpverk.Effect.{
  with_code, Expected, value, unexpected, Outcome, ok, throw, abort, unfinished, continue,
}
use vpverk.Effect.Post.{Post, Post-weaken}
use vpverk.Net.{Socket, u32_max, read_some, read_some-ReadsAll, ReadsAll, wanted}
use vpverk.Aes.{int_size, Cipher, AesSession}
use vpverk.Aes
use vpverk.Aes.Stream.{Follows, encrypt_update_of}
use vpverk.Connection.{Connection, bytes_of, number_of}
use vpverk.Session.{Link, clear_or_refuse, pure, or_throw, decryption_failure}
use vpverk.Session.Exchange.{Got, Fails, refuse-Post}
use vpverk.Session.Access.{FailsLink, on_con-Post}
use vpverk.Traffic.{seal, read_part, max_bounds_size}

pub number_of-bytes_of : (n : ℕ) → n ≤ u32_max → number_of (bytes_of n) ≡ n
number_of-bytes_of n h = omega arith

module _ (C : Cipher) where
  -- What was sealed is four bytes longer than the packet.
  pub length-seal :
      (p y : List ℕ) (room : ℕ) (s s' : AesSession C)
      → length p + 4 < 2 ^ 31
      → seal C p room s ≡ (value y, s')
      → length y ≡ 4 + length p
  unfolding seal
  length-seal p y room s s' short e =
      let (u, keeps) = encrypt_update_of C (bytes_of (length p) ++ p) y room s s' e in
      let l =
        C.same_length s.encrypt_ctx s'.encrypt_ctx (bytes_of (length p) ++ p) y (omega arith) u in
      omega (arith, l)

  -- A text that was encrypted at once opens in two parts at an end that follows.
  pub opens_parts :
      (h p y : List ℕ) (room : ℕ) (s s' r : AesSession C)
      → length h ≡ 4
      → length p + 4 < 2 ^ 31
      → Follows C s r
      → Aes.encrypt C (h ++ p) room s ≡ (value y, s')
      → (r1 : AesSession C) × (r2 : AesSession C) × (length y ≡ 4 + length p)
        × (Aes.decrypt C (take 4 y) 4 r ≡ (value h, r1))
        × (Aes.decrypt C (drop 4 y) (length p) r1 ≡ (value p, r2))
        × Follows C s' r2
  unfolding Aes.decrypt
  opens_parts h p y room s s' r n short f e =
      let x = h ++ p in
      let (u, keeps) = encrypt_update_of C x y room s s' e in
      let small : length x < 2 ^ 31 = omega (arith, n, length-append h p) in
      let same = C.same_length s.encrypt_ctx s'.encrypt_ctx x y small u in
      let l : length y ≡ 4 + length p = omega (arith, same, n, length-append h p) in
      let four : length (take 4 y) ≡ 4 = omega (arith, length-take 4 y) in
      let rest : length (drop 4 y) ≡ length p = omega (arith, length-drop 4 y) in
      let back : C.decrypt_update r.decrypt_ctx (int_size (take 4 y ++ drop 4 y))
            (take 4 y ++ drop 4 y)
          ≡ some (x, s'.encrypt_ctx) =
        rw (← f, take-append-drop 4 y) (C.undoes s.encrypt_ctx s'.encrypt_ctx x y small u) in
      let (m, first, second) =
        C.splits r.decrypt_ctx s'.encrypt_ctx (take 4 y) (drop 4 y) x
          (omega (arith, length-append (take 4 y) (drop 4 y))) back in
      let head : C.decrypt_update r.decrypt_ctx (int_size (take 4 y)) (take 4 y) ≡ some (h, m) =
        subst (λ k. C.decrypt_update r.decrypt_ctx (int_size (take 4 y)) (take 4 y) ≡ some (k, m))
          (take_at 4 h p n)
          (subst
            (λ k.
              C.decrypt_update r.decrypt_ctx (int_size (take 4 y)) (take 4 y) ≡ some (take k x, m))
            four first) in
      let tail : C.decrypt_update m (int_size (drop 4 y)) (drop 4 y) ≡ some (p, s'.encrypt_ctx) =
        subst (λ k. C.decrypt_update m (int_size (drop 4 y)) (drop 4 y) ≡ some (k, s'.encrypt_ctx))
          (drop_at 4 h p n)
          (subst
            (λ k.
              C.decrypt_update m (int_size (drop 4 y)) (drop 4 y) ≡ some (drop k x, s'.encrypt_ctx))
            four second) in
      let fits1 : ltb 4 (length (take 4 y)) ≡ false = ground arith in
      let fits2 : ltb (length p) (length (drop 4 y)) ≡ false = ground arith in
      (
        record r { decrypt_ctx = m },
        record r { decrypt_ctx = s'.encrypt_ctx },
        l,
        rw (fits1, head),
        rw (fits2, tail),
        refl,
      )

  -- What was sealed opens as the size and the packet.
  pub opens :
      (p y : List ℕ) (room : ℕ) (s s' r : AesSession C)
      → length p + 4 < 2 ^ 31
      → Follows C s r
      → seal C p room s ≡ (value y, s')
      → (r1 : AesSession C) × (r2 : AesSession C) × (length y ≡ 4 + length p)
        × (Aes.decrypt C (take 4 y) 4 r ≡ (value (bytes_of (length p)), r1))
        × (Aes.decrypt C (drop 4 y) (length p) r1 ≡ (value p, r2))
        × Follows C s' r2
  unfolding seal
  opens p y room s s' r short f e = opens_parts (bytes_of (length p)) p y room s s' r refl short f e

  module _ (S : Socket) where
    -- What `read_part` reads: exactly `n` bytes, if any are asked for.
    abbrev pub Part : ℕ → Connection S → List ℕ → Connection S → Type 0
    Part n c y d =
        (b : List ℕ) × (y ≡ take n b) × (length b ≡ wanted max_bounds_size n) × Got C S c b d

    pub read_part-Post :
        (text : String) (n : ℕ) (c : Connection S)
        → Post (Part n c) (Fails C S c) (read_part C S text n c)
    unfolding read_part
    read_part-Post text n c =
        go (read_some S max_bounds_size n c.sock)
          (read_some-ReadsAll S max_bounds_size n c.sock (omega arith)).0
      where
        go :
            (x : Outcome (Expected (List ℕ)) × S.State)
            → ReadsAll S (wanted max_bounds_size n) c.sock x
            → Post (Part n c) (Fails C S c) (
                continue
                  (λ b. pure (take n b))
                  (continue (or_throw text) (x.0, record c { sock = x.1 })))
        go (ok (value b), t) (l, more, same) = (
          b,
          refl,
          l,
          record {
            arrived = more;
            silent = record { nothing_sent = same; still_open = refl; same_lock = refl };
          },
        )
        go (ok (unexpected e), t) (part, l, more, same) = inr same
        go (throw e, t) h = absurd h
        go (abort m, t) h = absurd h
        go (unfinished, t) h = absurd h

    module _ (yield : Connection S → Connection S) (rounds : ℕ) where
      pub clear_or_refuse-Post :
          (fail : String) (l k : Link C S)
          → k.con.closed ≡ false
          → k.con.write_locked ≡ false
          → (r : Expected (List ℕ) × AesSession C)
          → Post
              (λ x m. (r.0 ≡ value x) × (m ≡ record k { aes = r.1 }))
              (FailsLink C S l)
              (clear_or_refuse C S yield (suc rounds) fail r.0 (record k { aes = r.1 }))
      unfolding clear_or_refuse
      clear_or_refuse-Post fail l k opened free (value x, a) = (refl, refl)
      clear_or_refuse-Post fail l k opened free (unexpected c, a) =
          Post-weaken (λ x m. ⊥ × (m.aes ≡ a)) _ (λ x m. Fails C S l.con x m.con) (FailsLink C S l)
            _
            (on_con-Post C S (λ x d. ⊥) (record k { aes = a }) l.con _
              (refuse-Post C S yield rounds (λ x d. ⊥) decryption_failure (with_code fail c) l.con
                k.con (omega arith) opened free))
            (λ x m h. absurd h.0) (λ x m h. h)
