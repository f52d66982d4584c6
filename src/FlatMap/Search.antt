-- ===== src/FlatMap/Search.antt =====
-- The search finds the place of a key.
use vpverk.Base.{
  ℕ, zero, suc, ◌+◌, ◌-◌, ◌/◌, ◌≤◌, ◌<◌, ◌≡◌, ap, ◌∙◌, true, false, some, List, [], ◌∷◌, length,
  get_elem?, get_elem?-some, ltb, leb, ◌==◌, arith, Bool-cases, inl, inr,
}
use vpverk.FlatMap.{search, check_last}

-- Every key of the list is above `x`.
abbrev pub Above : ℕ → List ℕ → Type 0
Above x [] = Unit {0}
Above x (y ∷ ys) = (x < y) × Above x ys

abbrev pub Ascending : List ℕ → Type 0
Ascending [] = Unit {0}
Ascending (x ∷ xs) = Above x xs × Ascending xs

pub Above-at : (x : ℕ) (ys : List ℕ) (j y : ℕ) → Above x ys → get_elem? ys j ≡ some y → x < y
Above-at x [] j y h e = cc
Above-at x (z ∷ ys) zero y h e = ground arith
Above-at x (z ∷ ys) (suc j) y h e = Above-at x ys j y h.1 e

-- Keys at later places are greater.
ascends :
    (ks : List ℕ) (i j x y : ℕ)
    → Ascending ks
    → i < j
    → get_elem? ks i ≡ some x
    → get_elem? ks j ≡ some y
    → x < y
ascends [] i j x y s lt e f = cc
ascends (k ∷ ks) i zero x y s lt e f = absurd (omega arith)
ascends (k ∷ ks) zero (suc j) x y s lt e f = ground (arith, Above-at k ks j y s.0)
ascends (k ∷ ks) (suc i) (suc j) x y s lt e f = ascends ks i j x y s.1 (omega arith) e f

pub search_sound :
    (fuel : ℕ) (ks : List ℕ) (k low high i : ℕ)
    → search fuel ks k low high ≡ some i
    → get_elem? ks i ≡ some k
unfolding search check_last
search_sound zero ks k low high i e = cc
search_sound (suc fuel) ks k low high i e =
    let mid = low + (high - low) / 2 in
    ground (arith, search_sound fuel ks k (mid + 1) high i, search_sound fuel ks k low (mid - 1) i)

-- Two keys in order are at places in order.
place :
    (ks : List ℕ) (i j x y : ℕ)
    → Ascending ks
    → get_elem? ks i ≡ some x
    → get_elem? ks j ≡ some y
    → x < y
    → i < j
place ks i j x y s e f lt = elim (Bool-cases (ltb i j)) [
  | inl before ↦ ground arith
  | inr after ↦ elim (Bool-cases (i == j)) [
    | inl same ↦ ground arith
    | inr other ↦ absurd (let up : y < x = ascends ks j i y x s (ground arith) f e in omega arith)
  ]
]

unique_at :
    (ks : List ℕ) (i j x : ℕ)
    → Ascending ks
    → get_elem? ks i ≡ some x
    → get_elem? ks j ≡ some x
    → i ≡ j
unique_at ks i j x s e f = elim (Bool-cases (ltb i j)) [
  | inl before ↦ absurd (let up : x < x = ascends ks i j x x s (ground arith) e f in omega arith)
  | inr late ↦ elim (Bool-cases (ltb j i)) [
    | inl after ↦ absurd (let up : x < x = ascends ks j i x x s (ground arith) f e in omega arith)
    | inr early ↦ ground arith
  ]
]

last_at :
    (ks : List ℕ) (k low i : ℕ) → get_elem? ks i ≡ some k → low ≡ i → check_last ks k low ≡ some i
unfolding check_last
last_at ks k low i e q = ground (arith, q)

pub search_complete :
    (fuel : ℕ) (ks : List ℕ) (k low high i : ℕ)
    → Ascending ks
    → get_elem? ks i ≡ some k
    → low ≤ i
    → i ≤ high
    → high < length ks
    → high < low + fuel
    → search fuel ks k low high ≡ some i
unfolding search
search_complete zero ks k low high i s e l h n f = absurd (omega arith)
search_complete (suc fuel) ks k low high i s e l h n f =
    let mid = low + (high - low) / 2 in
    let (x, at) = get_elem?-some ks mid (omega arith) in
    let inside : leb low high ≡ true = ground arith in
    elim (Bool-cases (x == k)) [
      | inl same ↦
          rw (inside, at, same)
            (ap some (unique_at ks mid i k s (at ∙ ap some (let q : x ≡ k = ground arith in q)) e))
      | inr other ↦ elim (Bool-cases (ltb x k)) [
        | inl lt ↦
            let after : mid < i = place ks mid i x k s at e (ground arith) in
            elim (Bool-cases (mid + 1 == high)) [
              | inl one ↦ rw (inside, at, other, lt, one) (last_at ks k high i e (ground arith))
              | inr more ↦
                  rw (inside, at, other, lt, more)
                    (search_complete fuel ks k (mid + 1) high i s e (omega arith) h n
                      (ground arith))
            ]
        | inr gt ↦
            let before : i < mid = place ks i mid k x s e at (ground arith) in
            let positive : (mid == 0) ≡ false = ground arith in
            elim (Bool-cases (low == mid - 1)) [
              | inl one ↦
                  rw (inside, at, other, gt, positive, one) (last_at ks k low i e (ground arith))
              | inr more ↦
                  rw (inside, at, other, gt, positive, more)
                    (search_complete fuel ks k low (mid - 1) i s e l (omega arith) (omega arith)
                      (ground arith))
            ]
      ]
    ]
