-- ===== src/Settings/Logins.antt =====
-- The binary search of a login in the sorted list.
use vpverk.Base.{
  ℕ, zero, suc, ◌+◌, ◌-◌, ◌/◌, ◌≤◌, ◌<◌, ◌≡◌, refl, sym, ap, ◌∙◌, subst, true, false, none, some,
  List, [], ◌∷◌, length, get_elem?, get_elem?-some, get_elem?-lt, ◌==◌, arith, ==_iff, Bool-cases,
  Option-cases, inl, inr, ◌↔◌,
}
use native.Mathlib.Decide.{dec_lt, ℕ_discrete}
use vpverk.Settings.{Login, less, lower_bound, binary_search}
use vpverk.Settings.Order.{less_irrefl, less_total, not-less_trans, AllFrom, IsSorted, Occurs}

AllFrom-get_elem? :
    (x : Login) (ys : List Login) (i : ℕ) {y : Login}
    → AllFrom x ys
    → get_elem? ys i ≡ some y
    → less y x ≡ false
AllFrom-get_elem? x [] i a e = cc
AllFrom-get_elem? x (z ∷ zs) zero a e = ground arith
AllFrom-get_elem? x (z ∷ zs) (suc i) a e = AllFrom-get_elem? x zs i a.1 e

-- In a sorted list no login is less than one before it.
sorted_le :
    (xs : List Login) (i j : ℕ) {y z : Login}
    → IsSorted xs
    → i ≤ j
    → get_elem? xs i ≡ some y
    → get_elem? xs j ≡ some z
    → less z y ≡ false
sorted_le [] i j s h e f = cc
sorted_le (x ∷ xs) zero zero s h e f = ground (arith, less_irrefl x)
sorted_le (x ∷ xs) zero (suc j) {y} {z} s h e f =
    ground (arith, AllFrom-get_elem? x xs j {y = z} s.0)
sorted_le (x ∷ xs) (suc i) zero s h e f = absurd (omega arith)
sorted_le (x ∷ xs) (suc i) (suc j) s h e f = sorted_le xs i j s.1 (omega arith) e f

differ : true ≡ false → ⊥
differ e = cc

Occurs-get_elem? : (x : Login) (xs : List Login) → Occurs x xs → (i : ℕ) × (get_elem? xs i ≡ some x)
Occurs-get_elem? x [] h = absurd h
Occurs-get_elem? x (y ∷ ys) (inl e) = (0, ap some e)
Occurs-get_elem? x (y ∷ ys) (inr h) = let (i, e) = Occurs-get_elem? x ys h in (suc i, e)

get_elem?-Occurs : (x : Login) (xs : List Login) (i : ℕ) → get_elem? xs i ≡ some x → Occurs x xs
get_elem?-Occurs x [] i e = cc
get_elem?-Occurs x (y ∷ ys) zero e = inl (ground arith)
get_elem?-Occurs x (y ∷ ys) (suc i) e = inr (get_elem?-Occurs x ys i e)

module _ (xs : List Login) (x : Login) (sorted : IsSorted xs) where
  -- The logins before `p` are less than `x`; those from `p` on are not.
  abbrev Below : ℕ → Type 0
  Below p = (i : ℕ) (y : Login) → i < p → get_elem? xs i ≡ some y → less y x ≡ true

  abbrev From : ℕ → Type 0
  From p = (i : ℕ) (y : Login) → p ≤ i → get_elem? xs i ≡ some y → less y x ≡ false

  right_part : (m : ℕ) (y : Login) → get_elem? xs m ≡ some y → less y x ≡ true → Below (m + 1)
  right_part m y e lt i z h f = elim (Bool-cases (less z x)) [
    | inl less_z ↦ less_z
    | inr ge ↦
        absurd
          (differ (sym lt ∙ not-less_trans y z x (sorted_le xs i m sorted (omega arith) f e) ge))
  ]

  left_part : (m : ℕ) (y : Login) → get_elem? xs m ≡ some y → less y x ≡ false → From m
  left_part m y e ge i z h f = not-less_trans z y x (sorted_le xs m i sorted h e f) ge

  lower_bound_splits :
      (fuel first len : ℕ)
      → first + len ≤ length xs
      → len < fuel
      → Below first
      → From (first + len)
      → Below (lower_bound fuel xs x first len) × From (lower_bound fuel xs x first len)
  unfolding lower_bound
  lower_bound_splits zero first len fits h b f = absurd (omega arith)
  lower_bound_splits (suc fuel) first len fits h b f = elim (ℕ_discrete len 0) [
    | yes z ↦
        let same : first + len ≡ first = omega arith in rw ((==_iff len 0).1 z) (b, rw same at f)
    | no nz ↦
        let (y, e) = get_elem?-some xs (first + len / 2) (omega arith) in
        let more : (len == 0) ≡ false = ground arith in
        elim (Bool-cases (less y x)) [
          | inl lt ↦
              rw (more, e, lt)
                (lower_bound_splits fuel (first + len / 2 + 1) (len - len / 2 - 1) (omega arith)
                  (omega arith) (right_part (first + len / 2) y e lt)
                  (subst From
                    (let q : first + len ≡ first + len / 2 + 1 + (len - len / 2 - 1) =
                        omega arith in
                      q)
                    f))
          | inr ge ↦
              rw (more, e, ge)
                (lower_bound_splits fuel first (len / 2) (omega arith) (omega arith) b
                  (left_part (first + len / 2) y e ge))
        ]
  ]

  -- In a sorted list the search finds just the logins that occur.
  pub binary_search-iff-Occurs : (binary_search xs x ≡ true) ↔ Occurs x xs
  unfolding binary_search
  binary_search-iff-Occurs = elim (Option-cases (get_elem? xs p)) [
    | inl e ↦
        rw (e, binary_search)
          (λ h. absurd (differ (sym h)), λ o. absurd (past e (Occurs-get_elem? x xs o)))
    | inr (y, e) ↦ elim (Bool-cases (less x y)) [
      | inl lt ↦
          rw (e, binary_search, lt)
            (λ h. absurd (differ (sym h)), λ o. absurd (skips y e lt (Occurs-get_elem? x xs o)))
      | inr ge ↦
          rw (e, binary_search, ge)
            (
              λ h.
                  get_elem?-Occurs x xs p
                    (e ∙ ap some (less_total y x (from p y (omega arith) e) ge)),
              λ o. refl,
            )
    ]
  ]
    where
      p : ℕ
      p = lower_bound (suc (length xs)) xs x 0 (length xs)

      split : Below p × From p
      split =
          lower_bound_splits (suc (length xs)) 0 (length xs) (omega arith) (omega arith)
            (λ i y h e. absurd (omega arith))
            (λ i y h e. absurd (omega (arith, get_elem?-lt xs i e)))

      below : Below p
      below = split.0

      from : From p
      from = split.1

      -- `x` stands at no place before `p`.
      late : (i : ℕ) → get_elem? xs i ≡ some x → p ≤ i
      late i f = elim (dec_lt i p) [
        | yes lt ↦ absurd (differ (sym (below i x lt f) ∙ less_irrefl x))
        | no ge ↦ omega arith
      ]

      past : get_elem? xs p ≡ none → (i : ℕ) × (get_elem? xs i ≡ some x) → ⊥
      past e (i, f) =
          let (y, g) = get_elem?-some xs p (omega (arith, late i f, get_elem?-lt xs i f)) in
          absurd (some_none (sym g ∙ e))
        where
          some_none : {y : Login} → some y ≡ none → ⊥
          some_none h = cc

      skips :
          (y : Login)
          → get_elem? xs p ≡ some y
          → less x y ≡ true
          → (i : ℕ) × (get_elem? xs i ≡ some x)
          → ⊥
      skips y e lt (i, f) = differ (sym lt ∙ sorted_le xs p i sorted (late i f) e f)
