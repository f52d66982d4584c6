-- ===== src/Schedule/Places.antt =====
-- The places of the coroutines after one of them moved.
use vpverk.Base.{ℕ, ◌≡◌, ◌≢◌, refl, sym, ap, subst, ◌∙◌, ◌⊎◌, inl, inr}
use mathlib.Core.Logic.{ite, if_pos, if_neg}
use native.Mathlib.Decide.{ℕ_discrete}

module _ {Place : Type 0} where
  -- Coroutine `i` stands at `h` now.
  unfoldable pub moved : (ℕ → Place) → ℕ → Place → ℕ → Place
  moved f i h j = ite (ℕ_discrete i j) h (f j)

  pub moved_here : (f : ℕ → Place) (i : ℕ) (h : Place) → moved f i h i ≡ h
  unfolding moved
  moved_here f i h = let e : i ≡ i = refl in if_pos (ℕ_discrete i i) e h (f i)

  pub moved_there : (f : ℕ → Place) (i j : ℕ) (h : Place) → i ≢ j → moved f i h j ≡ f j
  unfolding moved
  moved_there f i j h ne = if_neg (ℕ_discrete i j) ne h (f j)

  -- What the move does not change of coroutine `i` is the same of all of them.
  pub moved_alike :
      {B : Type 0} (g : Place → B) (f : ℕ → Place) (i j : ℕ) (h : Place)
      → g h ≡ g (f i)
      → g (moved f i h j) ≡ g (f j)
  moved_alike g f i j h e = elim (ℕ_discrete i j) [
    | yes same ↦ subst (λ k. g (moved f i h k) ≡ g (f k)) same (ap g (moved_here f i h) ∙ e)
    | no ne ↦ ap g (moved_there f i j h ne)
  ]

-- What stands at `k` after a change at `i` is the new value, or what stood there.
pub moved_from :
    {A : Type 0} (g : ℕ → A) (i : ℕ) (x : A) (k : ℕ) (y : A)
    → moved g i x k ≡ y
    → ((i ≡ k) × (x ≡ y)) ⊎ ((i ≢ k) × (g k ≡ y))
moved_from g i x k y e = elim (ℕ_discrete i k) [
  | yes same ↦ inl (same, sym (moved_here g i x) ∙ ap (moved g i x) same ∙ e)
  | no other ↦ inr (other, sym (moved_there g i k x other) ∙ e)
]

pub unchanged : {A : Type 0} (g : ℕ → A) (i k : ℕ) (x y : A) → x ≡ y → g k ≡ y → moved g i x k ≡ y
unchanged g i k x y here there = elim (ℕ_discrete i k) [
  | yes same ↦ subst (λ z. moved g i x z ≡ y) same (moved_here g i x ∙ here)
  | no other ↦ moved_there g i k x other ∙ there
]
