-- ===== src/Client/Login.antt =====
-- The login of the client as the server reads it: `startAsync` (src/client/async.cpp) against
-- `authenticateUser` (src/server/contexts/sessionscontrol.cpp).
use vpverk.Base.{
  ◌<◌, ◌^◌, ℕ, suc, ◌+◌, ◌≡◌, refl, sym, ap, ◌∙◌, subst, Bool, true, false, Option, some, List, [],
  ◌∷◌, ◌++◌, length, take, drop, take_at, append_cancel, take-append-drop, length-take, arith, ◌↔◌,
  replicate,
}
use mathlib.Core.List.{append_assoc, append-nil}
use vpverk.Effect.{Expected, value, ok}
use vpverk.Effect.Post.{Post}
use vpverk.Net.{Socket}
use vpverk.Aes.{int_size, Cipher, AesSession}
use vpverk.Aes
use vpverk.Aes.Stream.{Follows}
use vpverk.Connection.{Connection, number_of}
use vpverk.Session.{Link, authenticate_user}
use vpverk.Session.Exchange.{Got-trans}
use vpverk.Session.Access.{FailsLink, Answered, authenticate_user-Answered}
use vpverk.Settings.{Login}
use vpverk.Settings.Order.{Occurs, IsSorted}
use vpverk.Traffic.Packet.{opens_parts}
use vpverk.Client.Start.{login_message}

no_bytes : (x : List ℕ) → length x ≡ 0 → x ≡ []
no_bytes [] e = refl
no_bytes (b ∷ x) e = absurd (ground arith)

pub texts :
    {A : Type 0} (x z : List ℕ) (a b : A)
    → Path (Expected (List ℕ) × A) (value x, a) (value z, b)
    → x ≡ z
texts x z a b h = value_inj (ap (λ p. p.0) h)
  where
    value_inj : Path (Expected (List ℕ)) (value x) (value z) → x ≡ z
    value_inj e = cc

module _ (C : Cipher) where
  update_of :
      (y x : List ℕ) (n : ℕ) (a a' : AesSession C)
      → Aes.decrypt C y n a ≡ (value x, a')
      → C.decrypt_update a.decrypt_ctx (int_size y) y ≡ some (x, a'.decrypt_ctx)
  unfolding Aes.decrypt
  update_of y x n a a' e = ground arith

  decrypt_nothing :
      (x : List ℕ) (n : ℕ) (a a' : AesSession C) → Aes.decrypt C [] n a ≡ (value x, a') → x ≡ []
  decrypt_nothing x n a a' e =
      let u = update_of [] x n a a' e in
      let (m, first, second) = C.splits a.decrypt_ctx a'.decrypt_ctx [] [] x (omega arith) u in
      same x m a'.decrypt_ctx (sym u ∙ first)
    where
      same :
          (x : List ℕ) (m d : C.Context)
          → Path (Option (List ℕ × C.Context)) (some (x, d)) (some ([], m))
          → x ≡ []
      same x m d h = cc

  module _ (S : Socket) (yield : Connection S → Connection S) (rounds : ℕ) where
    -- On an open connection of the server whose write lock is free, with the logins sorted, the client's
    -- session followed and a login whose message an `int` can count: if the check of a login ends by an answer, and what it took from
    -- the socket is the beginning of what the client sends for its login, twice over, then it took
    -- four bytes, and the answer is yes just if the empty login is in the list, whatever the client's login is.
    pub authenticate_user-send_login :
        (allowed : List Login) (l m : Link C S) (s s' : AesSession C) (login y z rest : List ℕ)
        (b : Bool)
        → length login + 4 < 2 ^ 31
        → IsSorted allowed
        → l.con.closed ≡ false
        → l.con.write_locked ≡ false
        → Follows C s l.aes
        → Aes.encrypt C (login_message C S login) (4 + length login) s ≡ (value y, s')
        → authenticate_user C S yield (suc rounds) allowed l ≡ (ok b, m)
        → S.received m.con.sock ≡ S.received l.con.sock ++ z
        → z ++ rest ≡ y ++ y
        → ((b ≡ true) ↔ Occurs [] allowed) × (z ≡ take 4 y)
    authenticate_user-send_login allowed l m s s' login y z rest b short sorted opened free follows
          sent returns bytes begins =
        let g : Answered C S yield rounds allowed l b m =
          subst (Post (Answered C S yield rounds allowed l) (FailsLink C S l)) returns
            (authenticate_user-Answered C S yield rounds allowed l sorted opened free) in
        let (r1, r2, size, head_opens, rest_opens, again) =
          opens_parts C (replicate 4 0) login y (4 + length login) s s' l.aes refl short follows
            sent in
        let whole : g.y ++ g.z ≡ z = append_cancel (S.received l.con.sock) (g.y ++ g.z) z (
          sym (Got-trans C S l.con g.between.con m.con g.y g.z g.size.got g.text.got).arrived
          ∙ bytes) in
        let same : g.y ++ (g.z ++ rest) ≡ take 4 y ++ (drop 4 y ++ y) =
          sym (append_assoc g.y g.z rest)
          ∙ ap (λ (k : List ℕ). k ++ rest) whole
          ∙ begins
          ∙ ap (λ (k : List ℕ). k ++ y) (sym (take-append-drop 4 y))
          ∙ append_assoc (take 4 y) (drop 4 y) y in
        let four : length (take 4 y) ≡ 4 = omega (arith, size, length-take 4 y) in
        let head : g.y ≡ take 4 y =
          sym (take_at 4 g.y (g.z ++ rest) g.size.size)
          ∙ ap (λ (k : List ℕ). take 4 k) same
          ∙ take_at 4 (take 4 y) (drop 4 y ++ y) four in
        let first : g.first ≡ replicate 4 0 =
          texts g.first (replicate 4 0) g.between.aes r1
            (sym g.size.decrypted ∙ ap (λ k. Aes.decrypt C k 4 l.aes) head ∙ head_opens) in
        let n : number_of g.first ≡ 0 = ap number_of first in
        let nothing : g.z ≡ [] = no_bytes g.z (g.text.size ∙ n) in
        let login_empty : g.login ≡ [] =
          decrypt_nothing g.login (number_of g.first) g.between.aes m.aes (
            ap (λ k. Aes.decrypt C k (number_of g.first) g.between.aes) (sym nothing)
            ∙ g.text.decrypted) in
        (
          subst (λ k. (b ≡ true) ↔ Occurs k allowed) login_empty g.answer,
          sym whole ∙ ap (◌++◌ g.y) nothing ∙ append-nil g.y ∙ head,
        )
