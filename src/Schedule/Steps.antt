-- ===== src/Schedule/Steps.antt =====
-- What one step does to the coroutine that makes it, and to the others.
use vpverk.Base.{ℕ, ◌≡◌, ◌≢◌, refl}
use mathlib.Core.Logic.{if_pos, if_neg}
use vpverk.Schedule.{System, step}

module _ {Act Place Shared : Type 0} (next : Act → Place → Shared → Place × Shared) where
  -- Coroutine `i` stands at `p`, over the shared `d`.
  pub record At (s : System Place Shared) (i : ℕ) (p : Place) (d : Shared) : Type 0 where
    pub here : s.place i ≡ p
    pub over : s.shared ≡ d

  pub step-At :
      (s : System Place Shared) (i : ℕ) (a : Act) (p : Place) (d : Shared)
      → At s i p d
      → At (step next s (i, a)) i (next a p d).0 (next a p d).1
  unfolding step
  step-At s i a p d h = record {
    here = rw (if_pos _ (let e : i ≡ i = refl in e), h.here, h.over);
    over = rw (h.here, h.over);
  }

  pub step_other :
      (s : System Place Shared) (i j : ℕ) (a : Act) (p : Place)
      → i ≢ j
      → s.place j ≡ p
      → (step next s (i, a)).place j ≡ p
  unfolding step
  step_other s i j a p ne h = rw (if_neg _ ne, h)
