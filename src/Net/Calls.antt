-- ===== src/Net/Calls.antt =====
-- The macros `CALL_LOCK` and `CALL_LOCK_void`, and the callbacks of the awaiters (src/shared/asioapi.cpp), which
-- src/server/connection.cpp has too: a call of a socket under the recursive mutex of its connection.
use vpverk.Base.{
  ℕ, suc, ◌-◌, ◌%◌, ◌^◌, ◌<◌, ◌≡◌, refl, Bool, true, false, Option, none, some, List, ◌∷◌, arith,
}
use vpverk.Effect.{ErrorCode, Expected, value, unexpected, Outcome, ok, throw, abort, unfinished, M}

-- A socket with its mutex: how often the thread holds it, and how often it did at each call so far, the
-- last one first.
pub record Guarded (T : Type 0) : Type 0 where
  pub socket : T
  pub depth : ℕ
  pub calls : List ℕ

-- The depth of the mutex is as before, the result and the socket are those of the call, and the call was
-- made under the mutex.
pub record Under {A T : Type 0} (f : M T A) (s : Guarded T) (t : Guarded T) (d : ℕ) : Type 0 where
  pub depth : t.depth ≡ s.depth
  pub socket : t.socket ≡ (f s.socket).1
  pub calls : t.calls ≡ d ∷ s.calls

unfoldable pub lock_call : {T : Type 0} → Guarded T → Guarded T
lock_call s = record s { depth = suc s.depth }

unfoldable pub unlock_call : {T : Type 0} → Guarded T → Guarded T
unlock_call s = record s { depth = s.depth - 1 }

module _ {A T : Type 0} where
  -- The call itself
  unfoldable pub call : M T A → M (Guarded T) A
  call f s = let (r, t) = f s.socket in (r, record s { socket = t; calls = s.depth ∷ s.calls })

  -- `catch(...){ unlock(); throw; }`, and the unlock after a value
  unfoldable pub release_call : Outcome A × Guarded T → Outcome A × Guarded T
  release_call (ok a, s) = (ok a, unlock_call s)
  release_call (throw e, s) = (throw e, unlock_call s)
  release_call (abort m, s) = (abort m, s)
  release_call (unfinished, s) = (unfinished, s)

  -- `CALL_LOCK`; there is no mutex before the connection has one.
  unfoldable pub call_lock : Bool → M T A → M (Guarded T) A
  call_lock true f s = release_call (call f (lock_call s))
  call_lock false f s = call f s

  -- However the call comes back, by a value or by an exception, the mutex is held as often as before it,
  -- and once more during it.
  abbrev Bracketed : M T A → Guarded T → Outcome A × Guarded T → Type 0
  Bracketed f s (ok a, t) = ((f s.socket).0 ≡ ok a) × Under f s t (suc s.depth)
  Bracketed f s (throw e, t) = ((f s.socket).0 ≡ throw e) × Under f s t (suc s.depth)
  Bracketed f s (abort m, t) = (f s.socket).0 ≡ abort m
  Bracketed f s (unfinished, t) = (f s.socket).0 ≡ unfinished

  call_lock-Bracketed : (f : M T A) (s : Guarded T) → Bracketed f s (call_lock true f s)
  unfolding call_lock release_call call unlock_call lock_call
  call_lock-Bracketed f s = go (f s.socket).0 refl
    where
      under :
          Under f s
            (record s {
              socket = (f s.socket).1;
              calls = suc s.depth ∷ s.calls;
              depth = suc s.depth - 1;
            })
            (suc s.depth)
      under = record { depth = omega arith; socket = refl; calls = refl }

      go :
          (r : Outcome A)
          → (f s.socket).0 ≡ r
          → Bracketed f s (
              release_call (
                r,
                record s {
                  socket = (f s.socket).1;
                  calls = suc s.depth ∷ s.calls;
                  depth = suc s.depth;
                },
              ))
      go (ok a) e = (e, under)
      go (throw x) e = (e, under)
      go (abort m) e = e
      go unfinished e = e

-- The callback of `async_write_some` and `async_read_some`: the error, or the number of bytes as 32 bits
unfoldable awaited : Option ErrorCode → ℕ → Expected ℕ
awaited none n = value (n % 2 ^ 32)
awaited (some c) n = unexpected c

-- A buffer of `send` or `read_some_unreliable` is short enough for the number to be kept.
awaited-value : (n : ℕ) → n < 2 ^ 32 → awaited none n ≡ value n
unfolding awaited
awaited-value n h = let e : n % 2 ^ 32 ≡ n = omega arith in rw e refl
