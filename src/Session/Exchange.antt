-- ===== src/Session/Exchange.antt =====
-- The end of `exchangeAESkey` on every path.
use vpverk.Base.{
  ℕ, suc, ◌-◌, ◌%◌, ◌^◌, subst, ◌≤◌, ◌≡◌, refl, sym, ap, ◌∙◌, String, Bool, true, false, List, ◌++◌,
  length, arith, if◌then◌else◌, ◌==◌, Bool-cases, inl, inr, ◌⊎◌,
}
use mathlib.Core.List.{append_assoc}
use vpverk.Effect.{
  Exception, runtime_error, Expected, value, unexpected, Outcome, ok, throw, abort, unfinished,
  continue, ◌>>=◌,
}
use vpverk.Effect.Post.{Post, continue-Post, Post-weaken}
use vpverk.Net.{Socket, u32_max, read_some, read_some-ReadsAll, ReadsAll}
use vpverk.Aes.{Cipher, AesSession}
use vpverk.Rsa.{Checked, good, bad, RsaKey, Pkey, private_key}
use vpverk.Rsa
use vpverk.Connection.{Connection, number_of, close}
use vpverk.Connection.Close.{close-Tells, Tells}
use vpverk.Session.{
  session_from, read_or_throw, or_throw, refuse, expect_size, open_key, accept, exchange_aes_key,
  protocol_violation,
}

decrypt_answers :
    (key : RsaKey) (y : List ℕ) (n : ℕ)
    → length y ≡ 256
    → (r : Checked (List ℕ)) × (Rsa.decrypt key y n ≡ ok r)
unfolding Rsa.decrypt
decrypt_answers key y n l = let same : (length y == 256) ≡ true = ground arith in rw same (_, refl)

module _ (C : Cipher) (S : Socket) where
  -- The flags stand, and nothing was sent since `c`.
  pub record Silent (c d : Connection S) : Type 0 where
    pub nothing_sent : S.sent d.sock ≡ S.sent c.sock
    pub still_open : d.closed ≡ c.closed
    pub same_lock : d.write_locked ≡ c.write_locked

  -- `b` arrived since `c`.
  pub record Got (c : Connection S) (b : List ℕ) (d : Connection S) : Type 0 where
    pub arrived : S.received d.sock ≡ S.received c.sock ++ b
    pub silent : Silent c d

  -- At a throw, nothing was sent unless the connection was closed.
  abbrev pub Fails : Connection S → Exception → Connection S → Type 0
  Fails c e d = (d.closed ≡ true) ⊎ (S.sent d.sock ≡ S.sent c.sock)

  Silent-trans : (c d e : Connection S) → Silent c d → Silent d e → Silent c e
  Silent-trans c d e p q = record {
    nothing_sent = q.nothing_sent ∙ p.nothing_sent;
    still_open = q.still_open ∙ p.still_open;
    same_lock = q.same_lock ∙ p.same_lock;
  }

  pub Got-trans : (c d e : Connection S) (x y : List ℕ) → Got c x d → Got d y e → Got c (x ++ y) e
  Got-trans c d e x y p q = record {
    arrived =
        q.arrived ∙ ap (λ (k : List ℕ). k ++ y) p.arrived ∙ append_assoc (S.received c.sock) x y;
    silent = Silent-trans c d e p.silent q.silent;
  }

  pub Fails-trans :
      (c d : Connection S) (e : Exception) (k : Connection S)
      → S.sent d.sock ≡ S.sent c.sock
      → Fails d e k
      → Fails c e k
  Fails-trans c d e k p (inl shut) = inl shut
  Fails-trans c d e k p (inr same) = inr (same ∙ p)

  -- `n` bytes arrived.
  abbrev pub Full : ℕ → Connection S → List ℕ → Connection S → Type 0
  Full n c b d = (length b ≡ n) × Got c b d

  pub read_or_throw-Post :
      (text : String) (n : ℕ) (c : Connection S)
      → n ≤ u32_max
      → Post (Full n c) (Fails c) (read_or_throw C S text n c)
  unfolding read_or_throw
  read_or_throw-Post text n c small =
      let whole : n % 2 ^ 32 ≡ n = omega arith in
      let h = (read_some-ReadsAll S n 0 c.sock small).0 in
      go (read_some S n 0 c.sock)
        (subst (λ m. ReadsAll S m c.sock (read_some S n 0 c.sock)) whole h)
    where
      go :
          (x : Outcome (Expected (List ℕ)) × S.State)
          → ReadsAll S n c.sock x
          → Post (Full n c) (Fails c) (continue (or_throw text) (x.0, record c { sock = x.1 }))
      go (ok (value b), t) (l, more, same) = (
        l,
        record {
          arrived = more;
          silent = record { nothing_sent = same; still_open = refl; same_lock = refl };
        },
      )
      go (ok (unexpected e), t) (part, l, more, same) = inr same
      go (throw e, t) h = absurd h
      go (abort m, t) h = absurd h
      go (unfinished, t) h = absurd h

  module _ (yield : Connection S → Connection S) (rounds : ℕ) where
    pub refuse-Post :
        {A : Type 0} (P : A → Connection S → Type 0) (reason : List ℕ) (e : Exception)
        (c d : Connection S)
        → length reason ≤ u32_max - 13
        → d.closed ≡ false
        → d.write_locked ≡ false
        → Post P (Fails c) (refuse C S yield (suc rounds) reason e d)
    unfolding refuse
    refuse-Post P reason e c d small opened free =
        go (close S yield (suc rounds) reason d)
          (close-Tells S yield rounds reason d small opened free)
      where
        go :
            (x : Outcome (Unit {0}) × Connection S)
            → Tells S reason d x
            → Post P (Fails c) (continue (λ u. λ k. (throw e, k)) x)
        go (ok u, k) t = inl t.marked
        go (throw y, k) t = inl t.marked
        go (abort m, k) t = absurd t.finished
        go (unfinished, k) t = absurd t.finished

    -- The first size is right, and the connection is as it was.
    abbrev Sized : List ℕ → Connection S → Unit {0} → Connection S → Type 0
    Sized b d u k = (number_of b ≡ 256) × (k ≡ d)

    abbrev Opened : RsaKey → List ℕ → Connection S → List ℕ → Connection S → Type 0
    Opened key y d x k = (Rsa.decrypt key y 64 ≡ ok (good x)) × (length x ≡ 64) × (k ≡ d)

    abbrev Accepted : Expected (AesSession C) → Connection S → AesSession C → Connection S → Type 0
    Accepted r d s k = (r ≡ value s) × (k ≡ d)

    expect_size-Post :
        (b : List ℕ) (c d : Connection S)
        → d.closed ≡ false
        → d.write_locked ≡ false
        → Post (Sized b d) (Fails c) (expect_size C S yield (suc rounds) b d)
    unfolding expect_size
    expect_size-Post b c d opened free = elim (Bool-cases (number_of b == 256)) [
      | inl same ↦ rw same (let q : number_of b ≡ 256 = ground arith in q, refl)
      | inr other ↦
          rw other (refuse-Post (Sized b d) protocol_violation _ c d (omega arith) opened free)
    ]

    open_key-Post :
        (key : RsaKey) (y : List ℕ) (c d : Connection S)
        → length y ≡ 256
        → S.sent d.sock ≡ S.sent c.sock
        → Post (Opened key y d) (Fails c) (open_key C S yield (suc rounds) key y d)
    unfolding open_key
    open_key-Post key y c d l same =
        let (r, e) = decrypt_answers key y 64 l in rw (open_key, e) (go r e)
      where
        go :
            (r : Checked (List ℕ))
            → Rsa.decrypt key y 64 ≡ ok r
            → Post (Opened key y d) (Fails c) (elim r [
              | bad e ↦ (throw (runtime_error "fail rsa decrypt: "), d)
              | good x ↦
                  if length x == 64
                  then (ok x, d)
                  else (throw (runtime_error "fail rsa decrypt - expected size not match"), d)
            ])
        go (bad e) q = inr same
        go (good x) q = elim (Bool-cases (length x == 64)) [
          | inl full ↦ rw full (q, ground arith, refl)
          | inr part ↦ rw part (inr same)
        ]

    accept-Post :
        (r : Expected (AesSession C)) (c d : Connection S)
        → d.closed ≡ false
        → d.write_locked ≡ false
        → Post (Accepted r d) (Fails c) (accept C S yield (suc rounds) r d)
    unfolding accept
    accept-Post (value s) c d opened free = (refl, refl)
    accept-Post (unexpected e) c d opened free =
        refuse-Post (Accepted (unexpected e) d) protocol_violation _ c d (omega arith) opened free

    -- What a session that came about owes to what arrived: a first size of 256, and 256 bytes that
    -- the key decrypts to the 64 bytes that the session is made from.
    pub record Agreed (key : RsaKey) (allocated : Bool) (c : Connection S) (s : AesSession C)
        (d : Connection S) : Type 0 where
      pub first : List ℕ
      pub y : List ℕ
      pub raw : List ℕ
      pub first_size : (length first ≡ 4) × (number_of first ≡ 256)
      pub long : length y ≡ 256
      pub opened : Rsa.decrypt key y 64 ≡ ok (good raw)
      pub full : length raw ≡ 64
      pub made : session_from C allocated raw ≡ value s
      pub got : Got c (first ++ y) d

    -- On an open connection whose write lock is free, the exchange ends, by a session or by a throw.
    -- A session is made from the 64 bytes that the key decrypts from the 256 bytes behind a first
    -- size of 256, and nothing else arrived or was sent. At a throw, nothing was sent, or the
    -- connection is closed.
    pub exchange_aes_key-Agreed :
        (key : RsaKey) (allocated : Bool) (c : Connection S)
        → c.closed ≡ false
        → c.write_locked ≡ false
        → Post
            (Agreed key allocated c)
            (Fails c)
            (exchange_aes_key C S yield (suc rounds) key allocated c)
    unfolding exchange_aes_key
    exchange_aes_key-Agreed key allocated c opened free =
        continue-Post (Full 4 c) (Agreed key allocated c) (Fails c) _ _
          (read_or_throw-Post "error read on key exchange: " 4 c (omega arith))
          λ first d1 (l1, g1).
            let o1 : d1.closed ≡ false = g1.silent.still_open ∙ opened in
            let f1 : d1.write_locked ≡ false = g1.silent.same_lock ∙ free in
            continue-Post (Sized first d1) (Agreed key allocated c) (Fails c) _ _
              (expect_size-Post first c d1 o1 f1)
              λ u d2 (n2, e2). after_size first d1 d2 l1 g1 n2 e2
      where
        after_size :
            (first : List ℕ) (d1 d2 : Connection S)
            → length first ≡ 4
            → Got c first d1
            → number_of first ≡ 256
            → d2 ≡ d1
            → Post (Agreed key allocated c) (Fails c) (
                (do
                  y ← read_or_throw C S "error read on key exchange: " 256
                  raw ← open_key C S yield (suc rounds) key y
                  accept C S yield (suc rounds) (session_from C allocated raw))
                  d2)
        after_size first d1 d2 l1 g1 n2 e2 =
            let g2 : Got c first d2 = subst (λ d. Got c first d) (sym e2) g1 in
            continue-Post (Full 256 d2) (Agreed key allocated c) (Fails c) _ _
              (Post-weaken (Full 256 d2) (Full 256 d2) (Fails d2) (Fails c) _
                (read_or_throw-Post "error read on key exchange: " 256 d2 (omega arith))
                (λ b d g. g) (λ e d. Fails-trans c d2 e d g2.silent.nothing_sent))
              λ y d3 (l3, g3).
                continue-Post (Opened key y d3) (Agreed key allocated c) (Fails c) _ _
                  (open_key-Post key y c d3 l3 (g3.silent.nothing_sent ∙ g2.silent.nothing_sent))
                  λ raw d4 (k4, n4, e4).
                    Post-weaken (Accepted (session_from C allocated raw) d4)
                      (Agreed key allocated c) (Fails c) (Fails c) _
                      (accept-Post (session_from C allocated raw) c d4
                        (ap (λ d. d.closed) e4
                          ∙ g3.silent.still_open
                          ∙ g2.silent.still_open
                          ∙ opened)
                        (ap (λ d. d.write_locked) e4
                          ∙ g3.silent.same_lock
                          ∙ g2.silent.same_lock
                          ∙ free))
                      (λ s d (m5, e5). record {
                        first = first;
                        y = y;
                        raw = raw;
                        first_size = (l1, n2);
                        long = l3;
                        opened = k4;
                        full = n4;
                        made = m5;
                        got =
                            subst (λ k. Got c (first ++ y) k) (sym (e5 ∙ e4))
                              (Got-trans c d2 d3 first y g2 g3);
                      })
                      (λ e d h. h)
