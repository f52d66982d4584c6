-- ===== src/Traffic/Receive.antt =====
-- A round of `performDataExchange` receives the packets that the other end sealed.
use vpverk.Base.{
  ℕ, suc, ◌≤◌, ◌≡◌, sym, ap, ◌∙◌, subst, false, List, ◌++◌, length, take, drop, take_at, drop_at,
  all_of, append_cancel, length-append, arith, ltb, Bool-cases, inl, inr,
}
use vpverk.Effect.{Expected, value, ok, ◌>>=◌}
use vpverk.Effect.Post.{Post, continue-Post, Post-weaken}
use vpverk.Net.{Socket, wanted}
use vpverk.Aes.{Cipher, AesSession}
use vpverk.Aes
use vpverk.Aes.Stream.{Follows}
use vpverk.Connection.{Connection, bytes_of, number_of}
use vpverk.Session.{Link, on_con, on_aes, clear_or_refuse}
use vpverk.Session.Exchange.{Got, Fails, Got-trans, Fails-trans}
use vpverk.Session.Access.{Clear, IsClear, FailsLink, read_clear-Post, on_con-Post}
use vpverk.Traffic.{seal, read_part, receive, max_bounds_size}
use vpverk.Traffic.Packet.{number_of-bytes_of, opens, Part, read_part-Post, clear_or_refuse-Post}

both :
    {A : Type 0} (r : Expected (List ℕ) × A) (x : List ℕ) (a : A)
    → r.0 ≡ value x
    → a ≡ r.1
    → r ≡ (value x, a)
both (o, b) x a e f = cc

pub apart :
    {A : Type 0} (x z : List ℕ) (a b : A)
    → Path (Expected (List ℕ) × A) (value x, a) (value z, b)
    → (x ≡ z) × (a ≡ b)
apart x z a b h = (value_inj (ap (λ p. p.0) h), ap (λ p. p.1) h)
  where
    value_inj : Path (Expected (List ℕ)) (value x) (value z) → x ≡ z
    value_inj e = cc

module _ (C : Cipher) (S : Socket) where
  -- What a packet owes to what arrived: a size of at most 1500, and a text of that size behind it,
  -- decrypted in this order. For a size of 0 the 1500 bytes that follow are lost.
  pub record Received (l : Link C S) (x : List ℕ) (m : Link C S) : Type 0 where
    pub between : Link C S
    pub head : List ℕ
    pub first : List ℕ
    pub body : List ℕ
    pub size : Clear C S 4 l head first between
    pub small : number_of first ≤ max_bounds_size
    pub long : length body ≡ wanted max_bounds_size (number_of first)
    pub text :
        Aes.decrypt C (take (number_of first) body) (number_of first) between.aes ≡ (value x, m.aes)
    pub got : Got C S l.con (head ++ body) m.con

  module _ (yield : Connection S → Connection S) (rounds : ℕ) where
    -- On an open connection whose write lock is free, the reads of a round end, by a packet or by a
    -- throw. The packet has at most 1500 bytes by its size, and is what was decrypted from the bytes
    -- that follow the size. At a throw, nothing was sent, or the connection is closed.
    pub receive-Received :
        (l : Link C S)
        → l.con.closed ≡ false
        → l.con.write_locked ≡ false
        → Post (Received l) (FailsLink C S l) (receive C S yield (suc rounds) l)
    unfolding receive
    receive-Received l opened free =
        continue-Post (IsClear C S 4 l) (Received l) (FailsLink C S l) _ _
          (read_clear-Post C S yield rounds "error read on data exchange: " "first decrypt fail: " 4
            l (omega arith) opened free)
          λ first k (head, p). elim (Bool-cases (ltb max_bounds_size (number_of first))) [
            | inl large ↦ rw large (inr p.got.silent.nothing_sent)
            | inr small ↦ rw small (body_part first k head p (ground arith))
          ]
      where
        body_part :
            (first : List ℕ) (k : Link C S) (head : List ℕ)
            → Clear C S 4 l head first k
            → number_of first ≤ max_bounds_size
            → Post (Received l) (FailsLink C S l) (
                (do
                  y ←
                      on_con C S
                        (read_part C S "error read on data exchange (2): " (number_of first))
                  x ← on_aes C S (Aes.decrypt C y (number_of first))
                  clear_or_refuse C S yield (suc rounds) "first decrypt fail (2): " x)
                  k)
        body_part first k head p small =
            let n = number_of first in
            continue-Post (λ y j. Part C S n k.con y j.con × (j.aes ≡ k.aes)) (Received l)
              (FailsLink C S l) _ _
              (Post-weaken (λ y j. Part C S n k.con y j.con × (j.aes ≡ k.aes))
                (λ y j. Part C S n k.con y j.con × (j.aes ≡ k.aes)) (λ e m. Fails C S k.con e m.con)
                (FailsLink C S l) _
                (on_con-Post C S (Part C S n k.con) k k.con
                  (read_part C S "error read on data exchange (2): " n k.con)
                  (read_part-Post C S "error read on data exchange (2): " n k.con))
                (λ y j h. h) (λ e m. Fails-trans C S l.con k.con e m.con p.got.silent.nothing_sent))
              λ y j ((body, cut, long, g), same).
                let r = Aes.decrypt C y n j.aes in
                Post-weaken (λ x m. (r.0 ≡ value x) × (m ≡ record j { aes = r.1 })) (Received l)
                  (FailsLink C S l) (FailsLink C S l) _
                  (clear_or_refuse-Post C S yield rounds "first decrypt fail (2): " l j
                    (g.silent.still_open ∙ p.got.silent.still_open ∙ opened)
                    (g.silent.same_lock ∙ p.got.silent.same_lock ∙ free) r)
                  (λ x m (e, q). record {
                    between = k;
                    head = head;
                    first = first;
                    body = body;
                    size = p;
                    small = small;
                    long = long;
                    text =
                        ap (λ s. Aes.decrypt C (take n body) n s) (sym same)
                        ∙ ap (λ z. Aes.decrypt C z n j.aes) (sym cut)
                        ∙ both r x m.aes e (ap (λ v. v.aes) q);
                    got =
                        subst (λ d. Got C S l.con (head ++ body) d) (sym (ap (λ v. v.con) q))
                          (Got-trans C S l.con k.con j.con head body p.got g);
                  })
                  (λ e m h. h)

    -- On an open connection whose write lock is free: if the other end is followed and sealed a packet
    -- of at most 1500 bytes, and the reads of a round end by a packet with just these bytes taken from
    -- the socket, then the packet is the one sealed, and the other end is followed again.
    pub receive-seal :
        (l m : Link C S) (s s' : AesSession C) (p y x : List ℕ) (room : ℕ)
        → l.con.closed ≡ false
        → l.con.write_locked ≡ false
        → Follows C s l.aes
        → length p ≤ max_bounds_size
        → seal C p room s ≡ (value y, s')
        → receive C S yield (suc rounds) l ≡ (ok x, m)
        → S.received m.con.sock ≡ S.received l.con.sock ++ y
        → (x ≡ p) × Follows C s' m.aes
    receive-seal l m s s' p y x room opened free follows small sealed returns bytes =
        let g : Received l x m =
          subst (Post (Received l) (FailsLink C S l)) returns (receive-Received l opened free) in
        let (r1, r2, size, head_opens, body_opens, again) =
          opens C p y room s s' l.aes (omega arith) follows sealed in
        let same : g.head ++ g.body ≡ y =
          append_cancel (S.received l.con.sock) (g.head ++ g.body) y (sym g.got.arrived ∙ bytes) in
        let head : take 4 y ≡ g.head =
          ap (λ (k : List ℕ). take 4 k) (sym same) ∙ take_at 4 g.head g.body g.size.size in
        let body : drop 4 y ≡ g.body =
          ap (λ (k : List ℕ). drop 4 k) (sym same) ∙ drop_at 4 g.head g.body g.size.size in
        let (first, next) =
          apart g.first (bytes_of (length p)) g.between.aes r1
            (sym g.size.decrypted ∙ ap (λ k. Aes.decrypt C k 4 l.aes) (sym head) ∙ head_opens) in
        let n : number_of g.first ≡ length p =
          ap number_of first ∙ number_of-bytes_of (length p) (omega arith) in
        let all : length g.body ≡ number_of g.first = omega (
          arith,
          size,
          n,
          g.size.size,
          length-append g.head g.body,
          ap (λ (k : List ℕ). length k) same,
        ) in
        let (text, last) = apart p x r2 m.aes (
          sym body_opens
          ∙ ap (λ k. Aes.decrypt C k (length p) r1) body
          ∙ ap (λ k. Aes.decrypt C g.body (length p) k) (sym next)
          ∙ ap (λ k. Aes.decrypt C g.body k g.between.aes) (sym n)
          ∙ ap (λ k. Aes.decrypt C k (number_of g.first) g.between.aes)
              (sym (all_of (number_of g.first) g.body all))
          ∙ g.text) in
        (sym text, again ∙ ap (λ a. a.decrypt_ctx) last)
