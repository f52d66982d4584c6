-- ===== src/Net/Read.antt =====
-- `cvk_asio::read_some_unreliable` and `cvk_asio::read_some` (src/shared/asioapi.cpp). The out buffer
-- is given by its size; the bytes that a call writes into it are its result.
use Prim.Native.Nat.{max}
use vpverk.Base.{
  ℕ, zero, suc, ◌+◌, ◌-◌, ◌%◌, ◌^◌, ◌≤◌, ◌<◌, ◌≡◌, refl, sym, ap, ◌∙◌, Bool, true, false, not, ◌&&◌,
  ◌||◌, List, [], ◌++◌, length, arith, ltb, ◌==◌, if◌then◌else◌, Bool-cases, inl, inr,
  length-append,
}
use mathlib.Core.List.{append_assoc, append-nil}
use vpverk.Effect.{
  message_size, no_buffer_space, invalid_argument, connection_reset, Expected, value, unexpected,
  Outcome, ok, throw, abort, unfinished,
}
use vpverk.Net.Tcp.{Socket, reliable_is_open, reliable_is_open_moves}
use vpverk.Net.Send.{u32_max}

-- What `amount` asks for: 0 is the whole buffer.
abbrev pub wanted : ℕ → ℕ → ℕ
wanted size amount = if amount == 0 then size % 2 ^ 32 else amount

module _ (S : Socket) where
  open S use {State, sent, received, read_moves, read_fails}

  -- a read through the socket, once it is known to be open
  read_open : ℕ → Expected Bool × State → Outcome (Expected (List ℕ)) × State
  read_open n (value true, s) = let (r, t) = S.read_some n s in (ok r, t)
  read_open n (value false, s) = (ok (unexpected connection_reset), s)
  read_open n (unexpected e, s) = (ok (unexpected e), s)

  unfoldable pub read_some_unreliable : ℕ → ℕ → State → Outcome (Expected (List ℕ)) × State
  unfolding read_open
  read_some_unreliable size amount s =
      if size == 0
      then (abort "cussert: buffer.size()", s)
      else if size == 0 || ltb u32_max (max amount size)
      then (ok (unexpected message_size), s)
      else if ltb size amount
      then (ok (unexpected invalid_argument), s)
      else read_open (wanted size amount) (reliable_is_open S s)

  -- `while(was_read not_eq need_read)`; `was_read` is a uint32_t.
  unfoldable pub read_loop : ℕ → ℕ → ℕ → ℕ → List ℕ → State → Outcome (Expected (List ℕ)) × State
  read_loop zero size need was_read got s = (unfinished, s)
  read_loop (suc fuel) size need was_read got s =
      let (r, t) = read_some_unreliable (size - was_read) (need - was_read) s in
      let rest : Outcome (Expected (List ℕ)) × State = elim r [
        | ok e ↦ elim e [
          | value b ↦ read_loop fuel size need ((was_read + length b) % 2 ^ 32) (got ++ b) t
          | unexpected c ↦ (ok (unexpected c), t)
        ]
        | throw x ↦ (throw x, t)
        | abort m ↦ (abort m, t)
        | unfinished ↦ (unfinished, t)
      ] in
      if was_read == need then (ok (value got), s) else rest

  unfoldable pub read_some : ℕ → ℕ → State → Outcome (Expected (List ℕ)) × State
  read_some size amount s =
      if ltb size amount && not (amount == 0)
      then (ok (unexpected no_buffer_space), s)
      else read_loop (suc (wanted size amount)) size (wanted size amount) 0 [] s

  -- Between 1 and `n` bytes arrived, or an error is reported and none did.
  abbrev pub Reads : ℕ → State → Outcome (Expected (List ℕ)) × State → Type 0
  Reads n s (ok (value b), t) =
      (1 ≤ length b) × (length b ≤ n) × (received t ≡ received s ++ b) × (sent t ≡ sent s)
  Reads n s (ok (unexpected e), t) = (received t ≡ received s) × (sent t ≡ sent s)
  Reads n s (throw _, t) = ⊥
  Reads n s (abort _, t) = ⊥
  Reads n s (unfinished, t) = ⊥

  read_open-Reads :
      (n : ℕ) (s : State) (r : Expected Bool × State)
      → 1 ≤ n
      → sent r.1 ≡ sent s
      → received r.1 ≡ received s
      → Reads n s (read_open n r)
  unfolding read_open
  read_open-Reads n s (value true, t) pos e r = go (S.read_some n t) refl
    where
      go : (x : Expected (List ℕ) × State) → S.read_some n t ≡ x → Reads n s (ok x.0, x.1)
      go (value b, u) q =
          let (low, high, more, same) = read_moves n t u b pos q in
          (low, high, more ∙ ap (λ (k : List ℕ). k ++ b) r, same ∙ e)
      go (unexpected c, u) q = let (more, same) = read_fails n t u c q in (more ∙ r, same ∙ e)
  read_open-Reads n s (value false, t) pos e r = (r, e)
  read_open-Reads n s (unexpected c, t) pos e r = (r, e)

  -- One partial read of `amount` bytes into a buffer that has room for them.
  read_some_unreliable-Reads :
      (size amount : ℕ) (s : State)
      → 1 ≤ amount
      → amount ≤ size
      → size ≤ u32_max
      → Reads amount s (read_some_unreliable size amount s)
  unfolding read_some_unreliable
  read_some_unreliable-Reads size amount s pos fits small =
      let (e, r) = reliable_is_open_moves S s in
      let room : (size == 0) ≡ false = ground arith in
      let short : ltb u32_max (max amount size) ≡ false = ground arith in
      let enough : ltb size amount ≡ false = ground arith in
      let some_bytes : (amount == 0) ≡ false = ground arith in
      rw (room, short, enough, some_bytes) (read_open-Reads amount s (reliable_is_open S s) pos e r)

  -- One partial read into a whole buffer, which is what the amount 0 asks for.
  pub read_whole-Reads :
      (size : ℕ) (s : State)
      → 1 ≤ size
      → size ≤ u32_max
      → Reads size s (read_some_unreliable size 0 s)
  unfolding read_some_unreliable
  read_whole-Reads size s pos small =
      let (e, r) = reliable_is_open_moves S s in
      let room : (size == 0) ≡ false = ground arith in
      let short : ltb u32_max (max 0 size) ≡ false = ground arith in
      let enough : ltb size 0 ≡ false = ground arith in
      let kept : size % 2 ^ 32 ≡ size = omega arith in
      rw (room, short, enough, kept) (read_open-Reads size s (reliable_is_open S s) pos e r)

  -- Exactly `n` bytes arrived and are the result, or an error is reported and fewer arrived, which
  -- are lost to the caller.
  abbrev pub ReadsAll : ℕ → State → Outcome (Expected (List ℕ)) × State → Type 0
  ReadsAll n s (ok (value b), t) =
      (length b ≡ n) × (received t ≡ received s ++ b) × (sent t ≡ sent s)
  ReadsAll n s (ok (unexpected e), t) =
      (part : List ℕ) × (length part < n) × (received t ≡ received s ++ part) × (sent t ≡ sent s)
  ReadsAll n s (throw _, t) = ⊥
  ReadsAll n s (abort _, t) = ⊥
  ReadsAll n s (unfinished, t) = ⊥

  read_loop-ReadsAll :
      (fuel size need was : ℕ) (got : List ℕ) (s s₀ : State)
      → need ≤ size
      → size ≤ u32_max
      → was ≤ need
      → length got ≡ was
      → need < was + fuel
      → received s ≡ received s₀ ++ got
      → sent s ≡ sent s₀
      → ReadsAll need s₀ (read_loop fuel size need was got s)
  unfolding read_loop
  read_loop-ReadsAll zero size need was got s s₀ fits small le l lt r e = absurd (omega arith)
  read_loop-ReadsAll (suc fuel) size need was got s s₀ fits small le l lt r e =
      elim (Bool-cases (was == need)) [
        | inl done ↦ rw done (let q : length got ≡ need = ground arith in q, r, e)
        | inr more ↦
            let less : was < need = ground arith in
            rw more (
              after (read_some_unreliable (size - was) (need - was) s) less
                (read_some_unreliable-Reads (size - was) (need - was) s (omega arith) (omega arith)
                  (omega arith))
                (λ b t.
                  read_loop-ReadsAll fuel size need ((was + length b) % 2 ^ 32) (got ++ b) t s₀ fits
                    small))
      ]
    where
      after :
          (x : Outcome (Expected (List ℕ)) × State)
          → was < need
          → Reads (need - was) s x
          → ((b : List ℕ) (t : State)
              → (was + length b) % 2 ^ 32 ≤ need
              → length (got ++ b) ≡ (was + length b) % 2 ^ 32
              → need < (was + length b) % 2 ^ 32 + fuel
              → received t ≡ received s₀ ++ (got ++ b)
              → sent t ≡ sent s₀
              → ReadsAll need s₀
                  (read_loop fuel size need ((was + length b) % 2 ^ 32) (got ++ b) t))
          → ReadsAll need s₀ (elim x.0 [
            | ok w ↦ elim w [
              | value b ↦ read_loop fuel size need ((was + length b) % 2 ^ 32) (got ++ b) x.1
              | unexpected c ↦ (ok (unexpected c), x.1)
            ]
            | throw y ↦ (throw y, x.1)
            | abort m ↦ (abort m, x.1)
            | unfinished ↦ (unfinished, x.1)
          ])
      after (ok (value b), t) less (low, high, arrived, same) again =
          again b t (omega arith) (omega (arith, length-append got b)) (omega arith)
            (arrived ∙ ap (λ (k : List ℕ). k ++ b) r ∙ append_assoc (received s₀) got b) (same ∙ e)
      after (ok (unexpected c), t) less (arrived, same) again =
          (got, omega arith, arrived ∙ r, same ∙ e)
      after (throw y, t) less h again = h
      after (abort m, t) less h again = h
      after (unfinished, t) less h again = h

  -- What arrived as the result fits into the buffer.
  abbrev pub Fits : ℕ → Outcome (Expected (List ℕ)) × State → Type 0
  Fits size (ok (value b), t) = length b ≤ size
  Fits size (ok (unexpected e), t) = Unit {0}
  Fits size (throw _, t) = Unit {0}
  Fits size (abort _, t) = Unit {0}
  Fits size (unfinished, t) = Unit {0}

  Fits-of :
      (n size : ℕ) (s : State) (x : Outcome (Expected (List ℕ)) × State)
      → n ≤ size
      → ReadsAll n s x
      → ReadsAll n s x × Fits size x
  Fits-of n size s (ok (value b), t) le h = (h, omega (arith, h.0))
  Fits-of n size s (ok (unexpected e), t) le h = (h, tt)
  Fits-of n size s (throw y, t) le h = (h, tt)
  Fits-of n size s (abort m, t) le h = (h, tt)
  Fits-of n size s (unfinished, t) le h = (h, tt)

  -- `read_some` returns for every buffer size below 2 ^ 32 and every amount: either exactly the
  -- bytes wanted arrived (all that the buffer holds, if the amount is 0), and they fit into the
  -- buffer; or an error is reported, and fewer arrived. So an amount beyond the buffer is an error.
  -- Nothing is sent.
  pub read_some-ReadsAll :
      (size amount : ℕ) (s : State)
      → size ≤ u32_max
      → ReadsAll (wanted size amount) s (read_some size amount s)
        × Fits size (read_some size amount s)
  unfolding read_some
  read_some-ReadsAll size amount s small = elim (Bool-cases (amount == 0)) [
    | inl whole ↦
        let same : size % 2 ^ 32 ≡ size = omega arith in
        elim (Bool-cases (ltb size amount)) [
          | inl over ↦ absurd (ground arith)
          | inr under ↦
              rw (whole, under, same)
                (Fits-of size size s _ (omega arith) (
                  read_loop-ReadsAll (suc size) size size 0 [] s s (omega arith) small (omega arith)
                    refl (omega arith) (sym (append-nil (received s))) refl))
        ]
    | inr part ↦ elim (Bool-cases (ltb size amount)) [
      | inl over ↦ rw (part, over) (([], ground arith, sym (append-nil (received s)), refl), tt)
      | inr under ↦
          rw (part, under)
            (Fits-of amount size s _ (ground arith) (
              read_loop-ReadsAll (suc amount) size amount 0 [] s s (ground arith) small
                (omega arith) refl (omega arith) (sym (append-nil (received s))) refl))
    ]
  ]
