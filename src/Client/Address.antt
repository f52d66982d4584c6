-- ===== src/Client/Address.antt =====
-- The address as it goes from `sendIp` (src/server/contexts/sessionscontrol.cpp) to `startAsync`
-- (src/client/async.cpp).
use vpverk.Base.{
  ℕ, ◌≤◌, ◌≡◌, refl, sym, ap, ◌∙◌, subst, true, List, [], ◌∷◌, ◌++◌, length, take, drop, take_at,
  drop_at, append_cancel, arith, ◌==◌, if◌then◌else◌, Bool-cases, inl, inr,
}
use mathlib.Core.List.{append_assoc}
use vpverk.Effect.{
  with_number, Expected, value, unexpected, Outcome, ok, throw, abort, unfinished, continue, ◌>>=◌,
  ◌>>◌,
}
use vpverk.Effect.Post.{Post}
use vpverk.Net.{Socket, u32_max}
use vpverk.Aes.{Cipher, AesSession}
use vpverk.Aes
use vpverk.Aes.Stream.{Follows}
use vpverk.Connection.{Connection, bytes_of, number_of}
use vpverk.Session.{ip_message, or_throw, raise, pure}
use vpverk.Traffic.Packet.{opens_parts, number_of-bytes_of}
use vpverk.Client.{End, with_aes, read_all, read_block_size}
use vpverk.Client.Start.{read_address}
use vpverk.Client.Silence.{
  Quiet, Quiet-trans, Sized, Arrived, Refused, read_block_size-Sized, read_four-Arrived,
}
use vpverk.Client.Login.{texts}

module _ (C : Cipher) (S : Socket) where
  -- The address `a` is the number of four bytes, in clear, behind a size of 4.
  pub record Addressed (e : End C S) (a : ℕ) (k : End C S) : Type 0 where
    pub between : End C S
    pub head : Sized C S true e 4 between
    pub y : List ℕ
    pub x : List ℕ
    pub long : length y ≡ 4
    pub shown : Aes.decrypt C y 4 between.aes ≡ (value x, k.aes)
    pub number : a ≡ number_of x
    pub arrived : S.received k.sock ≡ S.received e.sock ++ (head.b ++ y)
    pub quiet : Quiet C S e k

  -- The read of an address ends by an address or by a throw. An address is the number of the four
  -- bytes that follow a size of 4, both in clear under the session, and nothing else was taken from the
  -- socket. In either case nothing is sent and nothing is written to the tunnel.
  read_address-Addressed :
      (e : End C S) → Post (Addressed e) (λ x k. Quiet C S e k) (read_address C S e)
  unfolding read_address
  read_address-Addressed e = first (read_block_size C S true e) (read_block_size-Sized C S true e)
    where
      ended :
          (n : ℕ) (k j : End C S) (h : Sized C S true e 4 k) (y : List ℕ) (p : Arrived C S 4 k y j)
          → (r : Expected (List ℕ) × AesSession C) → Aes.decrypt C y 4 j.aes ≡ r
          → Post
              (Addressed e)
              (λ x k. Quiet C S e k)
              (continue (λ x. pure (number_of x)) (or_throw "" r.0 (record j { aes = r.1 })))
      ended n k j h y p (value x, a) q = record {
        between = k;
        head = h;
        y = y;
        x = x;
        long = p.size;
        shown = ap (λ a. Aes.decrypt C y 4 a) (sym p.same_aes) ∙ q;
        number = refl;
        arrived =
            p.arrived
            ∙ ap (λ (z : List ℕ). z ++ y) h.arrived
            ∙ append_assoc (S.received e.sock) h.b y;
        quiet = record {
          nothing_sent = p.quiet.nothing_sent ∙ h.quiet.nothing_sent;
          nothing_written = p.quiet.nothing_written ∙ h.quiet.nothing_written;
        };
      }
      ended n k j h y p (unexpected c, a) q = record {
        nothing_sent = p.quiet.nothing_sent ∙ h.quiet.nothing_sent;
        nothing_written = p.quiet.nothing_written ∙ h.quiet.nothing_written;
      }

      second :
          (n : ℕ) (k : End C S) (h : Sized C S true e 4 k)
          → (x : Outcome (List ℕ) × End C S) → Post (Arrived C S 4 k) (Refused C S k) x
          → Post
              (Addressed e)
              (λ x k. Quiet C S e k)
              (continue
                (λ y. do
                  r ← with_aes C S (Aes.decrypt C y 4)
                  x ← or_throw "" r
                  pure (number_of x))
                x)
      second n k h (ok y, j) p = ended n k j h y p (Aes.decrypt C y 4 j.aes) refl
      second n k h (throw x, j) p = Quiet-trans C S e k j h.quiet p
      second n k h (abort m, j) p = absurd p
      second n k h (unfinished, j) p = absurd p

      first :
          (x : Outcome ℕ × End C S)
          → Post (Sized C S true e) (Refused C S e) x
          → Post
              (Addressed e)
              (λ x k. Quiet C S e k)
              (continue
                (λ n. do
                  (if n == 4
                      then pure tt
                      else raise (with_number "expected ip (so size should be 4), but size is: " n))
                  y ← read_all C S 4
                  r ← with_aes C S (Aes.decrypt C y 4)
                  x ← or_throw "" r
                  pure (number_of x))
                x)
      first (ok n, k) h = elim (Bool-cases (n == 4)) [
        | inl four ↦
            let is_four : n ≡ 4 = ground arith in
            rw four (
              second n k (subst (λ i. Sized C S true e i k) is_four h) (read_all C S 4 k)
                (read_four-Arrived C S k))
        | inr other ↦ rw other h.quiet
      ]
      first (throw x, k) h = h
      first (abort m, k) h = absurd h
      first (unfinished, k) h = absurd h

  -- If the client follows the server's session, the server encrypted the message of an address, and the
  -- client's read ends by an address with just these bytes taken from the socket, then it is the
  -- address of the server, and the server's session is followed again.
  pub read_address-ip_message :
      (yield : Connection S → Connection S) (spins : ℕ) (e k : End C S) (s s' : AesSession C)
      (ip a : ℕ) (y : List ℕ) (room : ℕ)
      → ip ≤ u32_max
      → Follows C s e.aes
      → Aes.encrypt C (ip_message C S yield spins ip) room s ≡ (value y, s')
      → read_address C S e ≡ (ok a, k)
      → S.received k.sock ≡ S.received e.sock ++ y
      → (a ≡ ip) × Follows C s' k.aes
  read_address-ip_message yield spins e k s s' ip a y room small follows sent returns bytes =
      let g : Addressed e a k =
        subst (Post (Addressed e) (λ x k. Quiet C S e k)) returns (read_address-Addressed e) in
      let (r1, r2, size, head_opens, rest_opens, again) =
        opens_parts C (4 ∷ 0 ∷ 0 ∷ 0 ∷ []) (bytes_of ip) y room s s' e.aes refl (omega arith)
          follows sent in
      let same : g.head.b ++ g.y ≡ y =
        append_cancel (S.received e.sock) (g.head.b ++ g.y) y (sym g.arrived ∙ bytes) in
      let head : take 4 y ≡ g.head.b =
        ap (λ (z : List ℕ). take 4 z) (sym same) ∙ take_at 4 g.head.b g.y g.head.long in
      let body : drop 4 y ≡ g.y =
        ap (λ (z : List ℕ). drop 4 z) (sym same) ∙ drop_at 4 g.head.b g.y g.head.long in
      let next : g.between.aes ≡ r1 =
        ap (λ p. p.1)
          (sym g.head.shown ∙ ap (λ z. Aes.decrypt C z 4 e.aes) (sym head) ∙ head_opens) in
      let last =
        sym g.shown
        ∙ ap (λ z. Aes.decrypt C z 4 g.between.aes) (sym body)
        ∙ ap (λ c. Aes.decrypt C (drop 4 y) 4 c) next
        ∙ rest_opens in
      (
        g.number
            ∙ ap number_of (texts g.x (bytes_of ip) k.aes r2 last)
            ∙ number_of-bytes_of ip small,
        again ∙ ap (λ c. c.decrypt_ctx) (sym (ap (λ p. p.1) last)),
      )
