-- ===== src/Net/Send.antt =====
-- `cvk_asio::send` (src/shared/asioapi.cpp): the whole buffer goes out, in order.
use vpverk.Base.{
  ℕ, zero, suc, ◌+◌, ◌-◌, ◌%◌, ◌^◌, ◌≤◌, ◌<◌, ◌≡◌, refl, sym, ap, ◌∙◌, Bool, true, false, ◌||◌,
  List, ◌++◌, length, take, drop, arith, ltb, ◌==◌, if◌then◌else◌, Bool-cases, inl, inr,
  length-drop, take-append-take, take_all,
}
use mathlib.Core.List.{append_assoc, append-nil}
use vpverk.Effect.{
  message_size, connection_reset, Expected, value, unexpected, Outcome, ok, throw, abort,
  unfinished,
}
use vpverk.Net.Tcp.{Socket, reliable_is_open, reliable_is_open_moves}

abbrev pub u32_max : ℕ
u32_max = 2 ^ 32 - 1

module _ (S : Socket) where
  open S use {State, write_some, sent, received, write_moves, write_fails}

  -- `while(offset not_eq buffer.size())`; `offset` is a uint32_t.
  unfoldable pub send_loop : ℕ → List ℕ → ℕ → State → Outcome (Expected (Unit {0})) × State
  send_loop zero b offset s = (unfinished, s)
  send_loop (suc fuel) b offset s =
      let (r, t) = write_some (drop offset b) s in
      let rest : Outcome (Expected (Unit {0})) × State = elim r [
        | value n ↦ send_loop fuel b ((offset + n) % 2 ^ 32) t
        | unexpected e ↦ (ok (unexpected e), t)
      ] in
      if offset == length b then (ok (value tt), s) else rest

  after_open : List ℕ → Expected Bool × State → Outcome (Expected (Unit {0})) × State
  after_open b (value true, s) = send_loop (suc (length b)) b 0 s
  after_open b (value false, s) = (ok (unexpected connection_reset), s)
  after_open b (unexpected e, s) = (ok (unexpected e), s)

  unfoldable pub send : List ℕ → State → Outcome (Expected (Unit {0})) × State
  unfolding after_open
  send b s =
      if length b == 0
      then (abort "cussert: buffer.size()", s)
      else if length b == 0 || ltb u32_max (length b)
      then (ok (unexpected message_size), s)
      else after_open b (reliable_is_open S s)

  -- All of `b` was sent, or the call reports an error and a proper part of `b` was sent.
  abbrev pub Sends : List ℕ → State → Outcome (Expected (Unit {0})) × State → Type 0
  Sends b s (ok (value _), t) = (sent t ≡ sent s ++ b) × (received t ≡ received s)
  Sends b s (ok (unexpected e), t) =
      (k : ℕ) × (k < length b) × (sent t ≡ sent s ++ take k b) × (received t ≡ received s)
  Sends b s (throw _, t) = ⊥
  Sends b s (abort _, t) = ⊥
  Sends b s (unfinished, t) = ⊥

  send_loop-Sends :
      (fuel : ℕ) (b : List ℕ) (offset : ℕ) (s s₀ : State)
      → length b ≤ u32_max
      → offset ≤ length b
      → length b < offset + fuel
      → sent s ≡ sent s₀ ++ take offset b
      → received s ≡ received s₀
      → Sends b s₀ (send_loop fuel b offset s)
  unfolding send_loop
  send_loop-Sends zero b offset s s₀ small le lt e r = absurd (omega arith)
  send_loop-Sends (suc fuel) b offset s s₀ small le lt e r =
      elim (Bool-cases (offset == length b)) [
        | inl done ↦
            let whole : take offset b ≡ b =
              ap (λ (k : ℕ). take k b) (let q : offset ≡ length b = ground arith in q)
              ∙ take_all b in
            rw done (e ∙ ap (◌++◌ (sent s₀)) whole, r)
        | inr more ↦ rw more (
            after (write_some (drop offset b) s) refl (ground arith)
              (λ n t. send_loop-Sends fuel b ((offset + n) % 2 ^ 32) t s₀ small))
      ]
    where
      after :
          (x : Expected ℕ × State)
          → write_some (drop offset b) s ≡ x
          → offset < length b
          → ((n : ℕ) (t : State)
              → (offset + n) % 2 ^ 32 ≤ length b
              → length b < (offset + n) % 2 ^ 32 + fuel
              → sent t ≡ sent s₀ ++ take ((offset + n) % 2 ^ 32) b
              → received t ≡ received s₀
              → Sends b s₀ (send_loop fuel b ((offset + n) % 2 ^ 32) t))
          → Sends b s₀ (elim x.0 [
            | value n ↦ send_loop fuel b ((offset + n) % 2 ^ 32) x.1
            | unexpected er ↦ (ok (unexpected er), x.1)
          ])
      after (value n, t) q less again =
          let (pos, most, out, same) =
            write_moves (drop offset b) s t n (omega (arith, length-drop offset b)) q in
          let exact : (offset + n) % 2 ^ 32 ≡ offset + n = omega (arith, length-drop offset b) in
          again n t (omega (arith, length-drop offset b)) (omega arith)
            (rw exact (
              out
              ∙ ap (λ (x : List ℕ). x ++ take n (drop offset b)) e
              ∙ append_assoc (sent s₀) (take offset b) (take n (drop offset b))
              ∙ ap (◌++◌ (sent s₀)) (take-append-take offset n b)))
            (same ∙ r)
      after (unexpected er, t) q less again =
          let (out, same) = write_fails (drop offset b) s t er q in
          (offset, less, out ∙ e, same ∙ r)

  after_open-Sends :
      (b : List ℕ) (s : State) (r : Expected Bool × State)
      → 1 ≤ length b
      → length b ≤ u32_max
      → sent r.1 ≡ sent s
      → received r.1 ≡ received s
      → Sends b s (after_open b r)
  unfolding after_open
  after_open-Sends b s (value true, t) pos small e r =
      send_loop-Sends (suc (length b)) b 0 t s small (omega arith) (omega arith)
        (e ∙ sym (append-nil (sent s))) r
  after_open-Sends b s (value false, t) pos small e r = (0, pos, e ∙ sym (append-nil (sent s)), r)
  after_open-Sends b s (unexpected er, t) pos small e r = (0, pos, e ∙ sym (append-nil (sent s)), r)

  -- `send` returns for every buffer of 1 to 2 ^ 32 - 1 bytes: either the whole buffer was accepted
  -- by the socket, in order and once, or an error is reported and a proper initial part of the
  -- buffer was accepted. Nothing is read from the socket.
  pub send-Sends :
      (b : List ℕ) (s : State) → 1 ≤ length b → length b ≤ u32_max → Sends b s (send b s)
  unfolding send
  send-Sends b s pos small =
      let (e, r) = reliable_is_open_moves S s in
      let none_empty : (length b == 0) ≡ false = ground arith in
      let fits : ltb u32_max (length b) ≡ false = ground arith in
      rw (none_empty, fits) (after_open-Sends b s (reliable_is_open S s) pos small e r)
