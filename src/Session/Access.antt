-- ===== src/Session/Access.antt =====
-- The end of `authenticateUser` on every path.
use vpverk.Base.{
  ℕ, suc, ◌≤◌, ◌≡◌, refl, sym, ap, ◌∙◌, String, Bool, true, false, List, length, arith, ltb,
  Bool-cases, inl, inr, ◌↔◌,
}
use vpverk.Effect.{
  Exception, with_code, Expected, value, unexpected, Outcome, ok, throw, abort, unfinished, ◌>>=◌,
}
use vpverk.Effect.Post.{Post, continue-Post, Post-weaken}
use vpverk.Net.{Socket, u32_max}
use vpverk.Aes.{Cipher, AesSession}
use vpverk.Aes
use vpverk.Settings.{Login, binary_search}
use vpverk.Settings.Order.{Occurs, IsSorted}
use vpverk.Settings.Logins.{binary_search-iff-Occurs}
use vpverk.Connection.{Connection, number_of}
use vpverk.Session.{
  Link, read_or_throw, clear_or_refuse, read_clear, authenticate_user, decryption_failure, pure,
}
use vpverk.Session.Exchange.{Got, Full, Fails, Fails-trans, read_or_throw-Post, refuse-Post}

module _ (C : Cipher) (S : Socket) where
  abbrev pub FailsLink : Link C S → Exception → Link C S → Type 0
  FailsLink l e m = Fails C S l.con e m.con

  pub on_con-Post :
      {A : Type 0} (P : A → Connection S → Type 0) (l : Link C S) (c : Connection S)
      (x : Outcome A × Connection S)
      → Post P (Fails C S c) x
      → Post
          (λ a m. P a m.con × (m.aes ≡ l.aes))
          (λ e m. Fails C S c e m.con)
          (x.0, record l { con = x.1 })
  on_con-Post P l c (ok a, d) h = (h, refl)
  on_con-Post P l c (throw e, d) h = h
  on_con-Post P l c (abort m, d) h = h
  on_con-Post P l c (unfinished, d) h = h

  -- `y` arrived, and the session of `l` decrypted it to `x`, of `n` bytes.
  pub record Clear (n : ℕ) (l : Link C S) (y x : List ℕ) (m : Link C S) : Type 0 where
    pub size : length y ≡ n
    pub decrypted : Aes.decrypt C y n l.aes ≡ (value x, m.aes)
    pub got : Got C S l.con y m.con

  abbrev pub IsClear : ℕ → Link C S → List ℕ → Link C S → Type 0
  IsClear n l x m = (y : List ℕ) × Clear n l y x m

  module _ (yield : Connection S → Connection S) (rounds : ℕ) where
    clear_or_refuse-Post :
        (fail : String) (n : ℕ) (l k : Link C S) (y : List ℕ)
        → length y ≡ n
        → Got C S l.con y k.con
        → l.con.closed ≡ false
        → l.con.write_locked ≡ false
        → k.aes ≡ l.aes
        → (r : Expected (List ℕ) × AesSession C) → Aes.decrypt C y n k.aes ≡ r
        → Post
            (IsClear n l)
            (FailsLink l)
            (clear_or_refuse C S yield (suc rounds) fail r.0 (record k { aes = r.1 }))
    unfolding clear_or_refuse
    clear_or_refuse-Post fail n l k y size g opened free same (value x, a) e = (
      y,
      record { size = size; decrypted = ap (λ s. Aes.decrypt C y n s) (sym same) ∙ e; got = g },
    )
    clear_or_refuse-Post fail n l k y size g opened free same (unexpected c, a) e =
        Post-weaken (λ x m. ⊥ × (m.aes ≡ a)) (IsClear n l) (λ x m. Fails C S l.con x m.con)
          (FailsLink l) _
          (on_con-Post (λ x d. ⊥) (record k { aes = a }) l.con _
            (refuse-Post C S yield rounds (λ x d. ⊥) decryption_failure (with_code fail c) l.con
              k.con (omega arith) (g.silent.still_open ∙ opened) (g.silent.same_lock ∙ free)))
          (λ x m h. absurd h.0) (λ x m h. h)

    pub read_clear-Post :
        (text fail : String) (n : ℕ) (l : Link C S)
        → n ≤ u32_max
        → l.con.closed ≡ false
        → l.con.write_locked ≡ false
        → Post (IsClear n l) (FailsLink l) (read_clear C S yield (suc rounds) text fail n l)
    unfolding read_clear
    read_clear-Post text fail n l small opened free =
        continue-Post (λ y k. Full C S n l.con y k.con × (k.aes ≡ l.aes)) (IsClear n l)
          (FailsLink l) _ _
          (on_con-Post (Full C S n l.con) l l.con (read_or_throw C S text n l.con)
            (read_or_throw-Post C S text n l.con small))
          λ y k ((size, g), same).
            clear_or_refuse-Post fail n l k y size g opened free same (Aes.decrypt C y n k.aes) refl

    -- What the answer to a login owes to what arrived: a size of at most 200, and a login of that
    -- size, decrypted in this order, which is in the list just if the answer is yes.
    pub record Answered (allowed : List Login) (l : Link C S) (b : Bool) (m : Link C S)
        : Type 0 where
      pub between : Link C S
      pub y : List ℕ
      pub first : List ℕ
      pub z : List ℕ
      pub login : List ℕ
      pub size : Clear 4 l y first between
      pub short : number_of first ≤ 200
      pub text : Clear (number_of first) between z login m
      pub answer : (b ≡ true) ↔ Occurs login allowed

    -- On an open connection whose write lock is free, with the logins sorted, the check of a login
    -- ends, by an answer or by a throw. The answer is yes just if the login that was decrypted is in
    -- the list; its size was decrypted before it and is at most 200. At a throw, nothing was sent, or
    -- the connection is closed.
    pub authenticate_user-Answered :
        (allowed : List Login) (l : Link C S)
        → IsSorted allowed
        → l.con.closed ≡ false
        → l.con.write_locked ≡ false
        → Post
            (Answered allowed l)
            (FailsLink l)
            (authenticate_user C S yield (suc rounds) allowed l)
    unfolding authenticate_user
    authenticate_user-Answered allowed l sorted opened free =
        continue-Post (IsClear 4 l) (Answered allowed l) (FailsLink l) _ _
          (read_clear-Post "error read on authentication: " "first decrypt fail: " 4 l (omega arith)
            opened free)
          λ first k (y, p). elim (Bool-cases (ltb 200 (number_of first))) [
            | inl long ↦ rw long (inr p.got.silent.nothing_sent)
            | inr short ↦ rw short (login_part first k y p (ground arith))
          ]
      where
        login_part :
            (first : List ℕ) (k : Link C S) (y : List ℕ)
            → Clear 4 l y first k
            → number_of first ≤ 200
            → Post (Answered allowed l) (FailsLink l) (
                (do
                  login ←
                      read_clear C S yield
                        (suc rounds)
                        "error read on authentication (2): "
                        "first decrypt fail (2): "
                        (number_of first)
                  pure (binary_search allowed login))
                  k)
        login_part first k y p short =
            continue-Post (IsClear (number_of first) k) (Answered allowed l) (FailsLink l) _ _
              (Post-weaken (IsClear (number_of first) k) (IsClear (number_of first) k) (FailsLink k)
                (FailsLink l) _
                (read_clear-Post "error read on authentication (2): " "first decrypt fail (2): "
                  (number_of first) k (omega arith) (p.got.silent.still_open ∙ opened)
                  (p.got.silent.same_lock ∙ free))
                (λ b d g. g) (λ e m. Fails-trans C S l.con k.con e m.con p.got.silent.nothing_sent))
              λ login m (z, q). record {
                between = k;
                y = y;
                first = first;
                z = z;
                login = login;
                size = p;
                short = short;
                text = q;
                answer = binary_search-iff-Occurs allowed login sorted;
              }
