-- ===== src/Aes/Duplex/Order.antt =====
-- What arrives of what two paired sessions send (src/shared/cvkaes.hpp).
use vpverk.Base.{
  ◌<◌, ◌^◌, ℕ, suc, ◌≡◌, refl, sym, ap, ◌∙◌, subst, Bool, false, some, List, [], ◌∷◌, ◌++◌, length,
  ltb, arith,
}
use mathlib.Core.List.{append_assoc}
use vpverk.Effect.{ErrorCode, Expected, value, unexpected}
use vpverk.Aes.{Cipher, int_size, AesSession, create, encrypt, decrypt}
use vpverk.Aes.Stream.{create-Paired, encrypt_update_of}
use vpverk.Aes.Duplex.{
  Way, Pair, Event, here_sends, there_sends, here_gets, there_gets, sends, gets_one, gets,
  duplex_step, duplex_run,
}

module _ (C : Cipher) where
  open C use {Context, encrypt_update, decrypt_update, undoes}

  -- From the state `d` the texts `xs` encrypt to `ys`, and lead to the state `e`.
  abbrev Encrypts : Context → List (List ℕ) → List (List ℕ) → Context → Type 0
  Encrypts d [] [] e = d ≡ e
  Encrypts d [] (y ∷ ys) e = ⊥
  Encrypts d (x ∷ xs) [] e = ⊥
  Encrypts d (x ∷ xs) (y ∷ ys) e =
      (length x < 2 ^ 31)
      × ((m : Context) × (encrypt_update d (int_size x) x ≡ some (y, m)) × Encrypts m xs ys e)

  -- What was sent is what the other end got and what is under way, under its state.
  pub record Flows (e d : Context) (w : Way C) : Type 0 where
    pub pending : List (List ℕ)
    pub all : w.sent ≡ w.got ++ pending
    pub chain : Encrypts d pending w.under_way e

  Encrypts-snoc :
      (d e f : Context) (xs ys : List (List ℕ)) (x y : List ℕ)
      → Encrypts d xs ys e
      → length x < 2 ^ 31
      → encrypt_update e (int_size x) x ≡ some (y, f)
      → Encrypts d (xs ++ x ∷ []) (ys ++ y ∷ []) f
  Encrypts-snoc d e f [] [] x y h n q = (n, (f, rw h q, refl))
  Encrypts-snoc d e f [] (z ∷ ys) x y h n q = absurd h
  Encrypts-snoc d e f (z ∷ xs) [] x y h n q = absurd h
  Encrypts-snoc d e f (z ∷ xs) (v ∷ ys) x y (l, (m, k, h)) n q =
      (l, (m, k, Encrypts-snoc m e f xs ys x y h n q))

  encrypt-keeps :
      (x : List ℕ) (n : ℕ) (s : AesSession C) → (encrypt C x n s).1.decrypt_ctx ≡ s.decrypt_ctx
  unfolding encrypt
  encrypt-keeps x n s = ground arith

  encrypt_refused :
      (x : List ℕ) (n : ℕ) (s t : AesSession C) {c : ErrorCode}
      → encrypt C x n s ≡ (unexpected c, t)
      → t.encrypt_ctx ≡ s.encrypt_ctx
  unfolding encrypt
  encrypt_refused x n s t e = ground arith

  -- The end that sends goes on in its own direction, and its other direction is as before.
  sends-Flows :
      (x : List ℕ) (n : ℕ) (s : AesSession C) (d : Context) (w : Way C)
      → length x < 2 ^ 31
      → Flows s.encrypt_ctx d w
      → let (t, v) = sends C x (encrypt C x n s) w in
        Flows t.encrypt_ctx d v × (t.decrypt_ctx ≡ s.decrypt_ctx)
  unfolding sends
  sends-Flows x n s d w short h = go (encrypt C x n s) refl (encrypt-keeps x n s)
    where
      go :
          (r : Expected (List ℕ) × AesSession C)
          → encrypt C x n s ≡ r
          → r.1.decrypt_ctx ≡ s.decrypt_ctx
          → Flows (sends C x r w).0.encrypt_ctx d (sends C x r w).1
            × ((sends C x r w).0.decrypt_ctx ≡ s.decrypt_ctx)
      go (value y, t) e k = (
        record {
          pending = h.pending ++ x ∷ [];
          all =
              ap (λ (z : List (List ℕ)). z ++ x ∷ []) h.all ∙ append_assoc w.got h.pending (x ∷ []);
          chain =
              Encrypts-snoc d s.encrypt_ctx t.encrypt_ctx h.pending w.under_way x y h.chain short
                (encrypt_update_of C x y n s t e).0;
        },
        k,
      )
      go (unexpected c, t) e k = (subst (λ f. Flows f d w) (sym (encrypt_refused x n s t e)) h, k)

  opened :
      (s : AesSession C) (x y : List ℕ) (m : Context)
      → length x < 2 ^ 31
      → encrypt_update s.decrypt_ctx (int_size x) x ≡ some (y, m)
      → decrypt C y (length y) s ≡ (value x, record s { decrypt_ctx = m })
  unfolding decrypt
  opened s x y m short k =
      let fits : ltb (length y) (length y) ≡ false = ground arith in
      rw (fits, undoes s.decrypt_ctx m x y short k) refl

  -- The end that gets the next text goes on in the other direction.
  gets-Flows :
      (s : AesSession C) (e : Context) (w : Way C) (ys : List (List ℕ))
      → w.under_way ≡ ys
      → Flows e s.decrypt_ctx w
      → let (t, v) = gets C ys s w in Flows e t.decrypt_ctx v × (t.encrypt_ctx ≡ s.encrypt_ctx)
  unfolding gets gets_one
  gets-Flows s e w [] q h = (h, refl)
  gets-Flows s e w (y ∷ rest) q h =
      go h.pending h.all (subst (λ z. Encrypts s.decrypt_ctx h.pending z e) q h.chain)
    where
      go :
          (xs : List (List ℕ))
          → w.sent ≡ w.got ++ xs
          → Encrypts s.decrypt_ctx xs (y ∷ rest) e
          → Flows e (gets C (y ∷ rest) s w).0.decrypt_ctx (gets C (y ∷ rest) s w).1
            × ((gets C (y ∷ rest) s w).0.encrypt_ctx ≡ s.encrypt_ctx)
      go [] a c = absurd c
      go (x ∷ xs) a (short, (m, k, c)) =
          rw (gets, opened s x y m short k)
            (
              record { pending = xs; all = a ∙ sym (append_assoc w.got (x ∷ []) xs); chain = c },
              refl,
            )

  -- Each direction flows.
  pub record InStep (p : Pair C) : Type 0 where
    pub forth : Flows p.here.encrypt_ctx p.there.decrypt_ctx p.out
    pub home : Flows p.there.encrypt_ctx p.here.decrypt_ctx p.back

  -- An `int` counts the bytes of a text that is sent.
  abbrev pub IsShort : Event C → Type 0
  IsShort (here_sends x) = length x < 2 ^ 31
  IsShort (there_sends x) = length x < 2 ^ 31
  IsShort here_gets = Unit {0}
  IsShort there_gets = Unit {0}

  abbrev pub AllShort : List (Event C) → Type 0
  AllShort [] = Unit {0}
  AllShort (e ∷ events) = IsShort e × AllShort events

  step-InStep : (e : Event C) (p : Pair C) → IsShort e → InStep p → InStep (duplex_step C e p)
  unfolding duplex_step
  step-InStep (here_sends x) p n h =
      let (f, k) = sends-Flows x (length x) p.here p.there.decrypt_ctx p.out n h.forth in
      record { forth = f; home = subst (λ d. Flows p.there.encrypt_ctx d p.back) (sym k) h.home }
  step-InStep (there_sends x) p n h =
      let (f, k) = sends-Flows x (length x) p.there p.here.decrypt_ctx p.back n h.home in
      record { home = f; forth = subst (λ d. Flows p.here.encrypt_ctx d p.out) (sym k) h.forth }
  step-InStep there_gets p n h =
      let (f, k) = gets-Flows p.there p.here.encrypt_ctx p.out p.out.under_way refl h.forth in
      record { forth = f; home = subst (λ e. Flows e p.here.decrypt_ctx p.back) (sym k) h.home }
  step-InStep here_gets p n h =
      let (f, k) = gets-Flows p.here p.there.encrypt_ctx p.back p.back.under_way refl h.home in
      record { home = f; forth = subst (λ e. Flows e p.there.decrypt_ctx p.out) (sym k) h.forth }

  run-InStep :
      (events : List (Event C)) (p : Pair C)
      → AllShort events
      → InStep p
      → InStep (duplex_run C events p)
  unfolding duplex_run
  run-InStep [] p n h = h
  run-InStep (e ∷ events) p n h = run-InStep events (duplex_step C e p) n.1 (step-InStep e p n.0 h)

  -- What the other end of a direction got is what was sent first, unchanged and in order; as many texts
  -- are missing as are under way.
  abbrev pub Delivers : Way C → Type 0
  Delivers w =
      (rest : List (List ℕ)) × (w.sent ≡ w.got ++ rest) × (length rest ≡ length w.under_way)

  abbrev pub unused : Way C
  unused = record { sent = []; under_way = []; got = [] }

  Encrypts-length :
      (d e : Context) (xs ys : List (List ℕ)) → Encrypts d xs ys e → length xs ≡ length ys
  Encrypts-length d e [] [] h = refl
  Encrypts-length d e [] (y ∷ ys) h = absurd h
  Encrypts-length d e (x ∷ xs) [] h = absurd h
  Encrypts-length d e (x ∷ xs) (y ∷ ys) (l, (m, k, h)) = ap suc (Encrypts-length m e xs ys h)

  Flows-Delivers : (e d : Context) (w : Way C) → Flows e d w → Delivers w
  Flows-Delivers e d w h = (h.pending, h.all, Encrypts-length d e h.pending w.under_way h.chain)

  -- Two sessions that were made from one key, with the vectors swapped, serve both directions at once:
  -- however the ends send texts that an `int` can count and get them, over a link that keeps their order
  -- and gives one at a time, in each direction the other end has got the texts that were sent first,
  -- unchanged and in order, and those that it has not got are under way.
  pub duplex_run-Delivers :
      (a b : Bool) (key iv₁ iv₂ : List ℕ) (s r : AesSession C) (events : List (Event C))
      → create C a key iv₁ iv₂ ≡ value s
      → create C b key iv₂ iv₁ ≡ value r
      → AllShort events
      → let p = duplex_run C events (record { here = s; there = r; out = unused; back = unused }) in
        Delivers p.out × Delivers p.back
  duplex_run-Delivers a b key iv₁ iv₂ s r events e f short =
      let (forth, home) = create-Paired C a b key iv₁ iv₂ s r e f in
      let h =
        run-InStep events (record { here = s; there = r; out = unused; back = unused }) short
          (record {
            forth = record { pending = []; all = refl; chain = sym forth };
            home = record { pending = []; all = refl; chain = sym home };
          }) in
      (Flows-Delivers _ _ _ h.forth, Flows-Delivers _ _ _ h.home)
