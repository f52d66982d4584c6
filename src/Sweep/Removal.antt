-- ===== src/Sweep/Removal.antt =====
-- Removal by a swap with the last element takes just one element, and moves none before it.
use vpverk.Base.{
  ℕ, zero, suc, ◌+◌, ◌≤◌, ◌<◌, ◌≡◌, refl, ◌∙◌, Bool, some, List, [], ◌∷◌, length, get_elem?,
  get_elem?-lt, set, length-set, arith, if◌then◌else◌,
}
use vpverk.Sweep.{last, pop_back, swap_remove}

module _ {A : Type 0} where
  abbrev pub one : (A → Bool) → A → ℕ
  one p a = if p a then 1 else 0

  -- How many elements pass a test.
  abbrev pub tally : (A → Bool) → List A → ℕ
  tally p [] = 0
  tally p (x ∷ xs) = one p x + tally p xs

  pub tally-set :
      (p : A → Bool) (xs : List A) (i : ℕ) (e z : A)
      → get_elem? xs i ≡ some e
      → tally p (set xs i z) + one p e ≡ tally p xs + one p z
  tally-set p [] i e z h = absurd cc
  tally-set p (x ∷ xs) zero e z h = let q : x ≡ e = cc in rw q (omega arith)
  tally-set p (x ∷ xs) (suc i) e z h = omega (arith, tally-set p xs i e z h)

  tally-pop_back :
      (p : A → Bool) (xs : List A) (z : A)
      → last xs ≡ some z
      → tally p (pop_back xs) + one p z ≡ tally p xs
  unfolding last pop_back
  tally-pop_back p [] z h = absurd cc
  tally-pop_back p (x ∷ []) z h = let q : x ≡ z = cc in rw q (omega arith)
  tally-pop_back p (x ∷ y ∷ xs) z h = omega (arith, tally-pop_back p (y ∷ xs) z h)

  length-pop_back : (xs : List A) (z : A) → last xs ≡ some z → length (pop_back xs) + 1 ≡ length xs
  unfolding last pop_back
  length-pop_back [] z h = absurd cc
  length-pop_back (x ∷ []) z h = omega arith
  length-pop_back (x ∷ y ∷ xs) z h = omega (arith, length-pop_back (y ∷ xs) z h)

  last-some : (xs : List A) → 1 ≤ length xs → (z : A) × (last xs ≡ some z)
  unfolding last
  last-some [] h = absurd (omega arith)
  last-some (x ∷ []) h = (x, refl)
  last-some (x ∷ y ∷ xs) h = last-some (y ∷ xs) (omega arith)

  last-set : (xs : List A) (i : ℕ) (z : A) → last xs ≡ some z → last (set xs i z) ≡ some z
  unfolding last
  last-set [] i z h = h
  last-set (x ∷ []) zero z h = refl
  last-set (x ∷ []) (suc i) z h = h
  last-set (x ∷ y ∷ xs) zero z h = h
  last-set (x ∷ y ∷ xs) (suc zero) z h = last-set (y ∷ xs) zero z h
  last-set (x ∷ y ∷ xs) (suc (suc i)) z h = last-set (y ∷ xs) (suc i) z h

  get-pop_back :
      (xs : List A) (j : ℕ) → j + 1 < length xs → get_elem? (pop_back xs) j ≡ get_elem? xs j
  unfolding pop_back
  get-pop_back [] j h = refl
  get-pop_back (x ∷ []) j h = absurd (omega arith)
  get-pop_back (x ∷ y ∷ xs) zero h = refl
  get-pop_back (x ∷ y ∷ xs) (suc j) h = get-pop_back (y ∷ xs) j (omega arith)

  pub get-set_other :
      (xs : List A) (i j : ℕ) (z : A) → j < i → get_elem? (set xs i z) j ≡ get_elem? xs j
  get-set_other [] i j z h = refl
  get-set_other (x ∷ xs) zero j z h = absurd (omega arith)
  get-set_other (x ∷ xs) (suc i) zero z h = refl
  get-set_other (x ∷ xs) (suc i) (suc j) z h = get-set_other xs i j z (omega arith)

  pub get-set_same :
      (xs : List A) (i : ℕ) (z : A) → i < length xs → get_elem? (set xs i z) i ≡ some z
  get-set_same [] i z h = absurd (omega arith)
  get-set_same (x ∷ xs) zero z h = refl
  get-set_same (x ∷ xs) (suc i) z h = get-set_same xs i z (omega arith)

  -- What the removal of the element at a place does.
  pub record Removes (i : ℕ) (e : A) (xs ys : List A) : Type 0 where
    pub counts : (p : A → Bool) → tally p ys + one p e ≡ tally p xs
    pub shorter : length ys + 1 ≡ length xs
    pub before : (j : ℕ) → j < i → get_elem? ys j ≡ get_elem? xs j

  pub swap_remove-Removes :
      (xs : List A) (i : ℕ) (e : A) → get_elem? xs i ≡ some e → Removes i e xs (swap_remove i xs)
  unfolding swap_remove
  swap_remove-Removes xs i e h =
      let lt = get_elem?-lt xs i h in
      let (z, l) = last-some xs (omega arith) in
      let k = last-set xs i z l in
      rw (swap_remove, l)
        (record {
          counts = λ p. omega (arith, tally-pop_back p (set xs i z) z k, tally-set p xs i e z h);
          shorter = omega (arith, length-pop_back (set xs i z) z k, length-set xs i z);
          before = λ j lt2.
              get-pop_back (set xs i z) j (omega (arith, length-set xs i z))
              ∙ get-set_other xs i j z lt2;
        })
