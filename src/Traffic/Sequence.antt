-- ===== src/Traffic/Sequence.antt =====
-- A sequence of packets from the client, as the rounds of `performDataExchange`
-- (src/server/contexts/sessionscontrol.cpp) receive them.
use vpverk.Base.{
  ℕ, zero, suc, ◌≤◌, ◌≡◌, refl, sym, ap, ◌∙◌, subst, false, List, [], ◌∷◌, ◌++◌, length, take,
  append_cancel, length-append, arith,
}
use mathlib.Core.List.{append_assoc, append-nil}
use vpverk.Effect.{value, Outcome, ok, throw, abort, unfinished, M, continue, ◌>>=◌}
use vpverk.Effect.Post.{Post}
use vpverk.Net.{Socket}
use vpverk.Aes.{Cipher, AesSession}
use vpverk.Aes.Stream.{Follows}
use vpverk.Connection.{Connection}
use vpverk.Session.{Link, pure}
use vpverk.Session.Access.{FailsLink}
use vpverk.Traffic.{seal, receive, max_bounds_size}
use vpverk.Traffic.Receive.{Received, receive-Received}
use vpverk.Traffic.First.{first_packet}

-- Packets of 1 to 1500 bytes
abbrev AllSized : List (List ℕ) → Type 0
AllSized [] = Unit {0}
AllSized (p ∷ ps) = (1 ≤ length p) × (length p ≤ max_bounds_size) × AllSized ps

module _ (C : Cipher) (S : Socket) (yield : Connection S → Connection S) (spins : ℕ) where
  -- The packets that a session sealed in turn, and the bytes that came of it.
  abbrev SealedAll : List (List ℕ) → ℕ → AesSession C → List ℕ → AesSession C → Type 0
  SealedAll [] room s z s' = (z ≡ []) × (s' ≡ s)
  SealedAll (p ∷ ps) room s z s' =
      (y : List ℕ) × (w : List ℕ) × (s1 : AesSession C) × (z ≡ y ++ w)
      × (seal C p room s ≡ (value y, s1))
      × SealedAll ps room s1 w s'

  -- The reads of so many rounds
  unfoldable pub receives : ℕ → M (Link C S) (List (List ℕ))
  receives zero = pure []
  receives (suc n) = do x ← receive C S yield (suc spins); xs ← receives n; pure (x ∷ xs)

  -- What was received since `l`, whatever the stream is.
  abbrev Grows : Link C S → Link C S → Type 0
  Grows l m = (w : List ℕ) × (S.received m.con.sock ≡ S.received l.con.sock ++ w)

  -- If the stream `z` is what is to come at `l`, the packets `xs` are the first `n` of it.
  abbrev Comes : ℕ → Link C S → List (List ℕ) → Link C S → Type 0
  Comes n l xs m =
      (ps : List (List ℕ)) (room : ℕ) (s s' : AesSession C) (z rest : List ℕ)
      → Follows C s l.aes
      → AllSized ps
      → SealedAll ps room s z s'
      → S.received m.con.sock ++ rest ≡ S.received l.con.sock ++ z
      → (xs ≡ take n ps) × (n ≤ length ps)

  -- What is to come at `l` starts with what the round took.
  reads_on :
      (l k m : Link C S) (x : List ℕ) (g : Received C S l x k) (w rest z : List ℕ)
      → S.received m.con.sock ≡ S.received k.con.sock ++ w
      → S.received m.con.sock ++ rest ≡ S.received l.con.sock ++ z
      → (g.head ++ g.body) ++ (w ++ rest) ≡ z
  reads_on l k m x g w rest z more begins =
      append_cancel (S.received l.con.sock) ((g.head ++ g.body) ++ (w ++ rest)) z (
        sym (append_assoc (S.received l.con.sock) (g.head ++ g.body) (w ++ rest))
        ∙ ap (λ (b : List ℕ). b ++ (w ++ rest)) (sym g.got.arrived)
        ∙ sym (append_assoc (S.received k.con.sock) w rest)
        ∙ ap (λ (b : List ℕ). b ++ rest) (sym more)
        ∙ begins)

  step-Comes :
      (n : ℕ) (l k m : Link C S) (x : List ℕ) (xs : List (List ℕ))
      → l.con.closed ≡ false
      → l.con.write_locked ≡ false
      → receive C S yield (suc spins) l ≡ (ok x, k)
      → Received C S l x k
      → Grows k m
      → Comes n k xs m
      → Comes (suc n) l (x ∷ xs) m
  step-Comes n l k m x xs opened free returns g (w, more) later [] room s s' z rest follows sized
        (e, f) begins =
      absurd (
        omega (
          arith,
          ap (λ (b : List ℕ). length b) (reads_on l k m x g w rest z more begins ∙ e),
          length-append (g.head ++ g.body) (w ++ rest),
          length-append g.head g.body,
          g.size.size,
        ))
  step-Comes n l k m x xs opened free returns g (w, more) later (p ∷ ps) room s s' z rest follows
        (some_bytes, small, sized) (y, v, s1, e, sealed, others) begins =
      let (same, go_on, left) =
        first_packet C S yield spins l k s s1 p y x v (w ++ rest) room opened free follows
          some_bytes small sealed returns g (reads_on l k m x g w rest z more begins ∙ e) in
      let (tail, enough) = later ps room s1 s' v rest go_on sized others (
        ap (λ (b : List ℕ). b ++ rest) more
        ∙ append_assoc (S.received k.con.sock) w rest
        ∙ ap (◌++◌ (S.received k.con.sock)) left) in
      (ap (λ (b : List ℕ). b ∷ xs) same ∙ ap (◌∷◌ p) tail, omega (arith, enough))

  receives-Comes :
      (n : ℕ) (l : Link C S)
      → l.con.closed ≡ false
      → l.con.write_locked ≡ false
      → Post (λ xs m. Grows l m × Comes n l xs m) (λ e m. Unit {0}) (receives n l)
  unfolding receives
  receives-Comes zero l opened free = (
    ([], sym (append-nil (S.received l.con.sock))),
    λ ps room s s' z rest follows sized sealed begins. (refl, omega arith),
  )
  receives-Comes (suc n) l opened free =
      go (receive C S yield (suc spins) l) refl (receive-Received C S yield spins l opened free)
        (λ k c f. receives-Comes n k c f)
    where
      after :
          (x : List ℕ) (k : Link C S)
          → receive C S yield (suc spins) l ≡ (ok x, k)
          → Received C S l x k
          → (r : Outcome (List (List ℕ)) × Link C S)
          → Post (λ xs m. Grows k m × Comes n k xs m) (λ e m. Unit {0}) r
          → Post
              (λ xs m. Grows l m × Comes (suc n) l xs m)
              (λ e m. Unit {0})
              (continue (λ xs. pure (x ∷ xs)) r)
      after x k e g (ok xs, m) ((w, more), later) = (
        (
          (g.head ++ g.body) ++ w,
          more
              ∙ ap (λ (b : List ℕ). b ++ w) g.got.arrived
              ∙ append_assoc (S.received l.con.sock) (g.head ++ g.body) w,
        ),
        step-Comes n l k m x xs opened free e g (w, more) later,
      )
      after x k e g (throw y, m) h = tt
      after x k e g (abort t, m) h = h
      after x k e g (unfinished, m) h = h

      go :
          (r : Outcome (List ℕ) × Link C S)
          → receive C S yield (suc spins) l ≡ r
          → Post (Received C S l) (FailsLink C S l) r
          → ((k : Link C S)
              → k.con.closed ≡ false
              → k.con.write_locked ≡ false
              → Post (λ xs m. Grows k m × Comes n k xs m) (λ e m. Unit {0}) (receives n k))
          → Post
              (λ xs m. Grows l m × Comes (suc n) l xs m)
              (λ e m. Unit {0})
              (continue (λ x. do xs ← receives n; pure (x ∷ xs)) r)
      go (ok x, k) e g others =
          after x k e g (receives n k)
            (others k (g.got.silent.still_open ∙ opened) (g.got.silent.same_lock ∙ free))
      go (throw y, k) e h others = tt
      go (abort t, k) e h others = h
      go (unfinished, k) e h others = h

  -- On an open connection whose write lock is free, if the session of the client is followed and it sealed
  -- packets of 1 to 1500 bytes in turn: where the reads of `n` rounds all end by a packet, and what was taken
  -- from the socket is the beginning of the bytes of the client, these packets are the first `n` of
  -- the client, unchanged and in order.
  pub receives-SealedAll :
      (n : ℕ) (l m : Link C S) (ps xs : List (List ℕ)) (room : ℕ) (s s' : AesSession C)
      (z rest : List ℕ)
      → l.con.closed ≡ false
      → l.con.write_locked ≡ false
      → Follows C s l.aes
      → AllSized ps
      → SealedAll ps room s z s'
      → receives n l ≡ (ok xs, m)
      → S.received m.con.sock ++ rest ≡ S.received l.con.sock ++ z
      → (xs ≡ take n ps) × (n ≤ length ps)
  receives-SealedAll n l m ps xs room s s' z rest opened free follows sized sealed returns begins =
      (subst (Post (λ xs m. Grows l m × Comes n l xs m) (λ e m. Unit {0})) returns
          (receives-Comes n l opened free)).1
        ps room s s' z rest follows sized sealed begins
