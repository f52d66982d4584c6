-- ===== src/Traffic/First.antt =====
-- The first packet of a stream, as a round of `performDataExchange`
-- (src/server/contexts/sessionscontrol.cpp) receives it.
use vpverk.Base.{
  ℕ, suc, ◌≤◌, ◌≡◌, refl, sym, ap, ◌∙◌, false, List, ◌++◌, length, take, take_at, drop,
  take-append-drop, length-take, append_cancel, length-append, arith,
}
use mathlib.Core.List.{append_assoc}
use vpverk.Effect.{value, ok}
use vpverk.Net.{Socket, wanted}
use vpverk.Aes.{Cipher, AesSession}
use vpverk.Aes
use vpverk.Aes.Stream.{Follows}
use vpverk.Connection.{Connection, bytes_of, number_of}
use vpverk.Session.{Link}
use vpverk.Traffic.{seal, receive, max_bounds_size}
use vpverk.Traffic.Packet.{number_of-bytes_of, opens}
use vpverk.Traffic.Receive.{Received, apart, receive-seal}

same_front :
    (z rest y more : List ℕ) → z ++ rest ≡ y ++ more → length z ≡ length y → (z ≡ y) × (rest ≡ more)
same_front z rest y more e l =
    let front : z ≡ y =
      sym (take_at (length y) z rest l)
      ∙ ap (λ (k : List ℕ). take (length y) k) e
      ∙ take_at (length y) y more refl in
    (front, append_cancel y rest more (ap (λ (k : List ℕ). k ++ rest) (sym front) ∙ e))

module _ (C : Cipher) (S : Socket) (yield : Connection S → Connection S) (spins : ℕ) where
  -- What is left of the stream is behind the packet that comes first in it.
  pub first_packet :
      (l m : Link C S) (s s' : AesSession C) (p y x more rest : List ℕ) (room : ℕ)
      → l.con.closed ≡ false
      → l.con.write_locked ≡ false
      → Follows C s l.aes
      → 1 ≤ length p
      → length p ≤ max_bounds_size
      → seal C p room s ≡ (value y, s')
      → receive C S yield (suc spins) l ≡ (ok x, m)
      → (g : Received C S l x m) → (g.head ++ g.body) ++ rest ≡ y ++ more
      → (x ≡ p) × Follows C s' m.aes × (rest ≡ more)
  first_packet l m s s' p y x more rest room opened free follows some_bytes small sealed returns g
        begins =
      let (r1, r2, size, head_opens, body_opens, again) =
        opens C p y room s s' l.aes (omega arith) follows sealed in
      let four : length (take 4 y) ≡ 4 = omega (arith, size, length-take 4 y) in
      let head : g.head ≡ take 4 y =
        (same_front g.head (g.body ++ rest) (take 4 y) (drop 4 y ++ more)
          (sym (append_assoc g.head g.body rest)
            ∙ begins
            ∙ ap (λ (k : List ℕ). k ++ more) (sym (take-append-drop 4 y))
            ∙ append_assoc (take 4 y) (drop 4 y) more)
          (g.size.size ∙ sym four)).0 in
      let (first, next) =
        apart g.first (bytes_of (length p)) g.between.aes r1
          (sym g.size.decrypted ∙ ap (λ k. Aes.decrypt C k 4 l.aes) head ∙ head_opens) in
      let n : number_of g.first ≡ length p =
        ap number_of first ∙ number_of-bytes_of (length p) (omega arith) in
      let all : length g.body ≡ length p =
        g.long ∙ ap (wanted max_bounds_size) n ∙ wanted_part (length p) some_bytes in
      let (whole, left) =
        same_front (g.head ++ g.body) rest y more begins
          (omega (arith, length-append g.head g.body, g.size.size, all, size)) in
      let (same, go_on) =
        receive-seal C S yield spins l m s s' p y x room opened free follows small sealed returns
          (g.got.arrived ∙ ap (◌++◌ (S.received l.con.sock)) whole) in
      (same, go_on, left)
    where
      wanted_part : (n : ℕ) → 1 ≤ n → wanted max_bounds_size n ≡ n
      wanted_part n h = ground arith
