-- ===== src/Dispatch/Pass.antt =====
-- The way of a packet to its client, once its peer is found and the write lock is held.
use vpverk.Base.{ℕ, suc, ◌+◌, ◌-◌, ◌≤◌, ◌≡◌, refl, Bool, true, false, List, ◌++◌, length, arith}
use vpverk.Effect.{
  Exception, Expected, value, unexpected, Outcome, ok, throw, abort, unfinished, continue,
}
use vpverk.Effect.Post.{Post}
use vpverk.Net.{Socket, u32_max, send, send-Sends, Sends}
use vpverk.Aes.{Cipher, AesSession}
use vpverk.Connection.{Connection, close}
use vpverk.Connection.Close.{close-Tells, Tells}
use vpverk.Session.{Link, pure}
use vpverk.Traffic.{seal}
use vpverk.Traffic.Packet.{length-seal}
use vpverk.Dispatch.{failed_encrypt, failed_send, give_up, after_send, after_encrypt, pass_packet}

module _ (C : Cipher) (S : Socket) where
  -- The packet went out whole, under the session, and the connection is as open as it was; or it did not,
  -- and the connection is closed. Either way the write lock is free.
  abbrev pub Passed : List ℕ → Link C S → Bool → Link C S → Type 0
  Passed p l true m =
      (y : List ℕ) × (seal C p (length p + 4) l.aes ≡ (value y, m.aes))
      × (S.sent m.con.sock ≡ S.sent l.con.sock ++ y)
      × (m.con.closed ≡ l.con.closed)
      × (m.con.write_locked ≡ false)
  Passed p l false m = (m.con.closed ≡ true) × (m.con.write_locked ≡ false)

  -- An exception of the close: the connection is closed and the write lock is free.
  abbrev pub Shut : Exception → Link C S → Type 0
  Shut e m = (m.con.closed ≡ true) × (m.con.write_locked ≡ false)

  module _ (yield : Connection S → Connection S) (spins : ℕ) where
    give_up-Passed :
        (reason p : List ℕ) (l k : Link C S)
        → length reason ≤ u32_max - 13
        → k.con.closed ≡ false
        → Post (Passed p l) Shut (give_up C S yield (suc spins) reason k)
    unfolding give_up
    give_up-Passed reason p l k small opened =
        go (close S yield (suc spins) reason (record k.con { write_locked = false })) (
          close-Tells S yield spins reason (record k.con { write_locked = false }) small opened
            refl)
      where
        go :
            (x : Outcome (Unit {0}) × Connection S)
            → Tells S reason (record k.con { write_locked = false }) x
            → Post (Passed p l) Shut (continue (λ u. pure false) (x.0, record k { con = x.1 }))
        go (ok u, d) t = (t.marked, t.unlocked)
        go (throw e, d) t = (t.marked, t.unlocked)
        go (abort m, d) t = absurd t.finished
        go (unfinished, d) t = absurd t.finished

    send-Passed :
        (p y : List ℕ) (l : Link C S) (a : AesSession C)
        → l.con.closed ≡ false
        → seal C p (length p + 4) l.aes ≡ (value y, a)
        → (x : Outcome (Expected (Unit {0})) × S.State) → Sends S y l.con.sock x
        → Post (Passed p l) Shut (
            continue
              (after_send C S yield (suc spins))
              (x.0, record { con = record l.con { sock = x.1 }; aes = a }))
    unfolding after_send
    send-Passed p y l a opened sealed (ok (value u), t) (out, kept) = (y, sealed, out, refl, refl)
    send-Passed p y l a opened sealed (ok (unexpected c), t) h =
        give_up-Passed failed_send p l _ (omega arith) opened
    send-Passed p y l a opened sealed (throw e, t) h = absurd h
    send-Passed p y l a opened sealed (abort m, t) h = absurd h
    send-Passed p y l a opened sealed (unfinished, t) h = absurd h

    -- For a packet of at most 1500 bytes and a connection that is not closed, the way of the packet ends
    -- with the write lock free. The size and the packet were sent whole, encrypted as one text, and the
    -- connection stays open; or it fails or throws, and the connection is closed.
    pub pass_packet-Passed :
        (p : List ℕ) (l : Link C S)
        → length p ≤ 1500
        → l.con.closed ≡ false
        → Post (Passed p l) Shut (pass_packet C S yield (suc spins) p l)
    unfolding pass_packet after_encrypt
    pass_packet-Passed p l small opened = go (seal C p (length p + 4) l.aes) refl
      where
        go :
            (r : Expected (List ℕ) × AesSession C)
            → seal C p (length p + 4) l.aes ≡ r
            → Post
                (Passed p l)
                Shut
                (after_encrypt C S yield (suc spins) r.0 (record l { aes = r.1 }))
        go (value y, a) q =
            let n = length-seal C p y (length p + 4) l.aes a (omega arith) q in
            send-Passed p y l a opened q (send S y l.con.sock)
              (send-Sends S y l.con.sock (omega (arith, n)) (omega (arith, n)))
        go (unexpected c, a) q =
            give_up-Passed failed_encrypt p l (record l { aes = a }) (omega arith) opened
