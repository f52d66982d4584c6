-- ===== src/Schedule.antt =====
-- Coroutines over shared flags, in any order: a step is one atomic operation of one of them.
pub mod Owner
pub mod Places
pub mod Steps
use vpverk.Base.{ℕ, List, [], ◌∷◌}
use mathlib.Core.Logic.{ite}
use native.Mathlib.Decide.{ℕ_discrete}

-- What the coroutines share, and where each of them stands.
pub record System (Place Shared : Type 0) : Type 0 where
  pub shared : Shared
  pub place : ℕ → Place

module _ {Act Place Shared : Type 0} (next : Act → Place → Shared → Place × Shared) where
  unfoldable pub step : System Place Shared → ℕ × Act → System Place Shared
  step s (i, a) =
      let (h, l) = next a (s.place i) s.shared in
      record { shared = l; place = λ j. ite (ℕ_discrete i j) h (s.place j) }

  -- A schedule: which coroutine makes its next operation.
  unfoldable pub run : System Place Shared → List (ℕ × Act) → System Place Shared
  run s [] = s
  run s (x ∷ xs) = run (step s x) xs
