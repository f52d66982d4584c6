-- ===== src/Connection/Close.antt =====
-- `Connection::close`: what it sends, that it ends, and that it acts once.
use vpverk.Base.{
  ℕ, zero, suc, ◌-◌, ◌≤◌, ◌<◌, ◌≡◌, refl, sym, ap, ◌∙◌, Bool, true, false, Option, none, some, List,
  [], ◌∷◌, ◌++◌, length, take, arith, length-append, if◌then◌else◌, ◌==◌, Bool-cases, inl, inr,
  take_all,
}
use mathlib.Core.List.{append-nil}
use vpverk.Effect.{
  ErrorCode, Expected, value, unexpected, Outcome, ok, throw, abort, unfinished, continue, ◌>>◌,
}
use vpverk.Net.{Socket, reliable_is_open, reliable_is_open_moves, send, send-Sends, Sends, u32_max}
use vpverk.Connection.{
  Connection, error_message, drain_loop, finish, throwing, close_locked, unlock_write, lock_write,
  close, on_socket, send_all,
}

-- The call returned or threw.
abbrev pub Finished {ℓ} : {A : Type ℓ} → Outcome A → Type 0
Finished (ok _) = Unit {0}
Finished (throw _) = Unit {0}
Finished (abort _) = ⊥
Finished unfinished = ⊥

module _ (S : Socket) where
  open S use {State, sent, shutdown_moves, drain_moves, drain_less, close_moves}

  drain_ends :
      (fuel : ℕ) (s : State)
      → S.available s < fuel
      → (t : State) × (drain_loop S fuel s ≡ (ok tt, t)) × (sent t ≡ sent s)
  unfolding drain_loop
  drain_ends zero s h = absurd (omega arith)
  drain_ends (suc fuel) s h = elim (Bool-cases ((S.drain_some s).0 == 0)) [
    | inl empty ↦ ((S.drain_some s).1, rw empty, drain_moves s)
    | inr more ↦
        let less = drain_less s (ground arith) in
        let (t, e, q) = drain_ends fuel (S.drain_some s).1 (omega arith) in
        (t, rw more e, q ∙ drain_moves s)
  ]

  -- The shutdown of the socket ends, and sends nothing.
  abbrev Quiet : State → Outcome (Unit {0}) × State → Type 0
  Quiet s (r, t) = Finished r × (sent t ≡ sent s)

  throwing-Quiet :
      (s : State) (r : Option ErrorCode × State) → sent r.1 ≡ sent s → Quiet s (throwing S r)
  throwing-Quiet s (none, t) e = (tt, e)
  throwing-Quiet s (some c, t) e = (tt, e)

  Quiet-continue :
      (s : State) (r : Outcome (Unit {0}) × State)
      (f : Unit {0} → State → Outcome (Unit {0}) × State)
      → Quiet s r
      → ((t : State) → sent t ≡ sent s → Quiet s (f tt t))
      → Quiet s (continue f r)
  Quiet-continue s (ok _, t) f q next = next t q.1
  Quiet-continue s (throw _, t) f q next = q
  Quiet-continue s (abort _, t) f q next = q
  Quiet-continue s (unfinished, t) f q next = q

  finish-Quiet : (s : State) → Quiet s (finish S s)
  unfolding finish
  finish-Quiet s =
      Quiet-continue s (throwing S (S.shutdown s)) _
        (throwing-Quiet s (S.shutdown s) (shutdown_moves s))
        λ t e.
          let (u, d, q) = drain_ends (suc (S.available t)) t (omega arith) in
          rw d (throwing-Quiet s (S.close u) (close_moves u ∙ q ∙ e))

  -- The call ends, and all that it sends is the error message or an initial part of it; the
  -- connection is marked closed.
  pub record Tells (reason : List ℕ) (c : Connection S) (r : Outcome (Unit {0}) × Connection S)
      : Type 0 where
    pub finished : Finished r.0
    pub size : ℕ
    pub most : size ≤ length (error_message reason)
    pub told : sent r.1.sock ≡ sent c.sock ++ take size (error_message reason)
    pub marked : r.1.closed ≡ true
    pub unlocked : r.1.write_locked ≡ false

  Tells-finish :
      (reason : List ℕ) (k : ℕ) (c d : Connection S) (r : Outcome (Unit {0}) × State)
      → k ≤ length (error_message reason)
      → sent d.sock ≡ sent c.sock ++ take k (error_message reason)
      → d.closed ≡ true
      → Quiet d.sock r
      → Tells reason c (unlock_write S (r.0, record d { sock = r.1 }))
  Tells-finish reason k c d r le e m q = record {
    finished = q.0;
    size = k;
    most = le;
    told = q.1 ∙ e;
    marked = m;
    unlocked = refl;
  }

  Tells-sent :
      (reason : List ℕ) (c d : Connection S) (r : Outcome (Expected (Unit {0})) × State)
      → sent d.sock ≡ sent c.sock
      → d.closed ≡ true
      → Sends S (error_message reason) d.sock r
      → Tells reason c
          (unlock_write S (continue (λ _. on_socket S (finish S)) (r.0, record d { sock = r.1 })))
  Tells-sent reason c d (ok (value _), t) e m h =
      Tells-finish reason (length (error_message reason)) c (record d { sock = t }) (finish S t)
        (omega arith)
        (h.0
          ∙ ap (λ (x : List ℕ). x ++ error_message reason) e
          ∙ ap (◌++◌ (sent c.sock)) (sym (take_all (error_message reason))))
        m (finish-Quiet t)
  Tells-sent reason c d (ok (unexpected er), t) e m h =
      Tells-finish reason h.0 c (record d { sock = t }) (finish S t) (omega (arith, h.1))
        (h.2 ∙ ap (λ (x : List ℕ). x ++ take h.0 (error_message reason)) e) m (finish-Quiet t)
  Tells-sent reason c d (throw _, t) e m h = absurd h
  Tells-sent reason c d (abort _, t) e m h = absurd h
  Tells-sent reason c d (unfinished, t) e m h = absurd h

  Tells-silent :
      (reason : List ℕ) (c d : Connection S)
      → sent d.sock ≡ sent c.sock
      → d.closed ≡ true
      → Tells reason c (unlock_write S (ok tt, d))
  Tells-silent reason c d e m = record {
    finished = tt;
    size = 0;
    most = omega arith;
    told = e ∙ sym (append-nil (sent c.sock));
    marked = m;
    unlocked = refl;
  }

  close_locked-Tells :
      (reason : List ℕ) (c : Connection S)
      → length reason ≤ u32_max - 13
      → c.closed ≡ true
      → Tells reason c (unlock_write S (close_locked S reason c))
  unfolding close_locked
  close_locked-Tells reason c small m =
      go (reliable_is_open S c.sock) (reliable_is_open_moves S c.sock).0
    where
      fits : length (error_message reason) ≤ u32_max
      fits = omega (arith, length-append reason (0 ∷ []))

      go :
          (x : Expected Bool × State)
          → sent x.1 ≡ sent c.sock
          → Tells reason c (
              unlock_write S (elim x.0 [
                | unexpected e ↦ (ok tt, record c { sock = x.1 })
                | value b ↦
                    if b
                    then (do send_all S (error_message reason); on_socket S (finish S))
                        (record c { sock = x.1 })
                    else (ok tt, record c { sock = x.1 })
              ]))
      go (unexpected e, t) q = Tells-silent reason c (record c { sock = t }) q m
      go (value false, t) q = Tells-silent reason c (record c { sock = t }) q m
      go (value true, t) q =
          Tells-sent reason c (record c { sock = t }) (send S (error_message reason) t) q m
            (send-Sends S (error_message reason) t (omega arith) fits)

  module _ (yield : Connection S → Connection S) where
    close_free :
        (rounds : ℕ) (reason : List ℕ) (c : Connection S)
        → c.closed ≡ false
        → c.write_locked ≡ false
        → close S yield (suc rounds) reason c
          ≡ unlock_write S (close_locked S reason (record c { closed = true; write_locked = true }))
    unfolding close lock_write
    close_free rounds reason c opened free = simp (opened, free)

    pub close_shut :
        (rounds : ℕ) (reason : List ℕ) (c : Connection S)
        → c.closed ≡ true
        → close S yield rounds reason c ≡ (ok tt, c)
    unfolding close
    close_shut rounds reason c shut = simp shut

    -- On an open connection whose write lock is free, with a reason that fits into a message of less
    -- than 2 ^ 32 bytes, `close` ends: it returns, or passes on an
    -- exception of the socket. It marks the connection closed, releases the lock, and sends at most
    -- the error message, from its start.
    pub close-Tells :
        (rounds : ℕ) (reason : List ℕ) (c : Connection S)
        → length reason ≤ u32_max - 13
        → c.closed ≡ false
        → c.write_locked ≡ false
        → Tells reason c (close S yield (suc rounds) reason c)
    close-Tells rounds reason c small opened free = rw (close_free rounds reason c opened free) (
        again
          (close_locked-Tells reason (record c { closed = true; write_locked = true }) small refl))
      where
        again :
            {r : Outcome (Unit {0}) × Connection S}
            → Tells reason (record c { closed = true; write_locked = true }) r
            → Tells reason c r
        again t = record {
          finished = t.finished;
          size = t.size;
          most = t.most;
          told = t.told;
          marked = t.marked;
          unlocked = t.unlocked;
        }

    -- After a `close` of a connection whose write lock was free, with a reason that fits into a message
    -- of less than 2 ^ 32 bytes, a second `close` does nothing, whatever its reason, also if the first
    -- one threw.
    close_twice :
        (rounds again : ℕ) (reason other : List ℕ) (c : Connection S)
        → length reason ≤ u32_max - 13
        → c.write_locked ≡ false
        → let d = (close S yield (suc rounds) reason c).1 in
          close S yield again other d ≡ (ok tt, d)
    close_twice rounds again reason other c small free = elim (Bool-cases c.closed) [
      | inl shut ↦ rw (close_shut (suc rounds) reason c shut) (close_shut again other c shut)
      | inr opened ↦ close_shut again other _ (close-Tells rounds reason c small opened free).marked
    ]
