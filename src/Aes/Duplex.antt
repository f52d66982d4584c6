-- ===== src/Aes/Duplex.antt =====
-- Both directions of a pair of sessions at once (src/shared/cvkaes.hpp): each end encrypts what it sends and
-- decrypts what arrives, in any order, over a link that keeps the order of the texts of each direction.
pub mod Order
use vpverk.Base.{ℕ, List, [], ◌∷◌, ◌++◌, length}
use vpverk.Effect.{Expected, value, unexpected}
use vpverk.Aes.{Cipher, AesSession, encrypt, decrypt}

module _ (C : Cipher) where
  -- One direction: what was sent, what is under way, and what the other end got of it.
  pub record Way : Type 0 where
    pub sent : List (List ℕ)
    pub under_way : List (List ℕ)
    pub got : List (List ℕ)

  -- The two ends and the two directions between them.
  pub record Pair : Type 0 where
    pub here : AesSession C
    pub there : AesSession C
    pub out : Way
    pub back : Way

  -- An end sends a text; a text that cannot be encrypted is not sent.
  unfoldable pub sends : List ℕ → Expected (List ℕ) × AesSession C → Way → AesSession C × Way
  sends x (value y, s) w =
      (s, record w { sent = w.sent ++ x ∷ []; under_way = w.under_way ++ y ∷ [] })
  sends x (unexpected c, s) w = (s, w)

  -- An end gets the next text, if there is one. One that it cannot decrypt is lost.
  unfoldable pub gets_one :
      List (List ℕ) → Expected (List ℕ) × AesSession C → Way → AesSession C × Way
  gets_one rest (value x, s) w = (s, record w { got = w.got ++ x ∷ []; under_way = rest })
  gets_one rest (unexpected c, s) w = (s, record w { under_way = rest })

  unfoldable pub gets : List (List ℕ) → AesSession C → Way → AesSession C × Way
  gets [] s w = (s, w)
  gets (y ∷ rest) s w = gets_one rest (decrypt C y (length y) s) w

  -- What happens next: one end or the other sends a text, or gets one.
  pub data Event : Type 0 where
    here_sends there_sends : List ℕ → Event
    here_gets there_gets : Event

  unfoldable pub duplex_step : Event → Pair → Pair
  duplex_step (here_sends x) p =
      let (s, w) = sends x (encrypt C x (length x) p.here) p.out in record p { here = s; out = w }
  duplex_step (there_sends x) p =
      let (s, w) = sends x (encrypt C x (length x) p.there) p.back in
      record p { there = s; back = w }
  duplex_step there_gets p =
      let (s, w) = gets p.out.under_way p.there p.out in record p { there = s; out = w }
  duplex_step here_gets p =
      let (s, w) = gets p.back.under_way p.here p.back in record p { here = s; back = w }

  unfoldable pub duplex_run : List Event → Pair → Pair
  duplex_run [] p = p
  duplex_run (e ∷ events) p = duplex_run events (duplex_step e p)
