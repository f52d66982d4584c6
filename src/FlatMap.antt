-- ===== src/FlatMap.antt =====
-- src/shared/flat_map.hpp: a map in two vectors, with the keys in ascending order. The keys are numbers
-- here. What `assert` stops is an abort.
pub mod Search
pub mod Map
pub mod Refine
mod Tests
use vpverk.Base.{
  ℕ, zero, suc, ◌+◌, ◌-◌, ◌/◌, String, Bool, true, false, not, Option, none, some, List, [], ◌∷◌,
  ◌++◌, length, get_elem?, ltb, leb, ◌==◌, if◌then◌else◌,
}
use vpverk.Effect.{Exception, runtime_error, Outcome, ok, throw, abort, unfinished, M}

-- `keys` and `vals`
pub record FlatMap (V : Type 0) : Type 0 where
  pub keys : List ℕ
  pub vals : List V

-- The check of the one place that is left.
unfoldable pub check_last : List ℕ → ℕ → ℕ → Option ℕ
check_last ks k low = elim (get_elem? ks low) [
  | none ↦ none
  | some x ↦ if x == k then some low else none
]

-- The while loop of `binarySearch`.
unfoldable pub search : ℕ → List ℕ → ℕ → ℕ → ℕ → Option ℕ
unfolding check_last
search zero ks k low high = none
search (suc fuel) ks k low high =
    let mid = low + (high - low) / 2 in
    let right = search fuel ks k (mid + 1) high in
    let left = search fuel ks k low (mid - 1) in
    if not (leb low high) then none else elim (get_elem? ks mid) [
      | none ↦ none
      | some x ↦
          if x == k
          then some mid
          else if ltb x k
          then (if mid + 1 == high then check_last ks k high else right)
          else if mid == 0
          then none
          else if low == mid - 1
          then check_last ks k low
          else left
    ]

-- `binarySearch`
unfoldable pub binary_search : List ℕ → ℕ → Outcome (Option ℕ)
binary_search [] k = abort "not keys.empty()"
binary_search (x ∷ xs) k = ok (search (suc (length (x ∷ xs))) (x ∷ xs) k 0 (length xs))

-- The while loop of `insert`: the place, or none where the key is met.
unfoldable pub position : List ℕ → ℕ → Option ℕ
position [] k = some 0
position (x ∷ xs) k =
    let rest = position xs k in
    if ltb x k
    then (elim rest [ none ↦ none | some p ↦ some (suc p) ])
    else if x == k
    then none
    else some 0

-- `vector::insert` before a place, and `vector::erase` at one
unfoldable pub insert_at : {A : Type 0} → ℕ → A → List A → List A
insert_at zero a xs = a ∷ xs
insert_at (suc i) a [] = a ∷ []
insert_at (suc i) a (x ∷ xs) = x ∷ insert_at i a xs

pub erase_at : {A : Type 0} → ℕ → List A → List A
erase_at i [] = []
erase_at zero (x ∷ xs) = xs
erase_at (suc i) (x ∷ xs) = x ∷ erase_at i xs

module _ {V : Type 0} where
  unfoldable pub value_at : List V → Outcome (Option ℕ) → Outcome V
  value_at vs (ok none) = throw (runtime_error "no value with this key")
  value_at vs (ok (some i)) = elim (get_elem? vs i) [ none ↦ abort "out of range" | some v ↦ ok v ]
  value_at vs (throw e) = throw e
  value_at vs (abort m) = abort m
  value_at vs unfinished = unfinished

  -- `at`
  unfoldable pub at : FlatMap V → ℕ → Outcome V
  unfolding value_at
  at m k = value_at m.vals (binary_search m.keys k)

  -- `insert`, both of them
  unfoldable pub insert : ℕ → V → M (FlatMap V) (Unit {0})
  insert k v m = elim (position m.keys k) [
    | none ↦ (throw (runtime_error "this key already exist"), m)
    | some p ↦ (ok tt, record { keys = insert_at p k m.keys; vals = insert_at p v m.vals })
  ]

  erase_found : Outcome (Option ℕ) → M (FlatMap V) (Unit {0})
  erase_found (ok none) m = (throw (runtime_error "no value with this key"), m)
  erase_found (ok (some i)) m =
      (ok tt, record { keys = erase_at i m.keys; vals = erase_at i m.vals })
  erase_found (throw e) m = (throw e, m)
  erase_found (abort t) m = (abort t, m)
  erase_found unfinished m = (unfinished, m)

  -- `remove`
  pub remove : ℕ → M (FlatMap V) (Unit {0})
  unfolding erase_found
  remove k m =
      if length m.keys == 0
      then (throw (runtime_error "flat_map is empty, nothing to remove"), m)
      else erase_found (binary_search m.keys k) m

  -- The for loop of `at_tryFirst`
  unfoldable pub first_keys : ℕ → ℕ → List ℕ → List V → Option V
  first_keys zero k ks vs = none
  first_keys (suc n) k [] vs = none
  first_keys (suc n) k (x ∷ ks) [] = none
  first_keys (suc n) k (x ∷ ks) (v ∷ vs) =
      let rest = first_keys n k ks vs in if x == k then some v else rest

  -- `at_tryFirst`
  unfoldable pub at_try_first : FlatMap V → ℕ → ℕ → Outcome V
  unfolding first_keys
  at_try_first m n k =
      if not (leb n (length m.keys))
      then abort "tryFindFaster <= keys.size()"
      else elim (first_keys n k m.keys m.vals) [ some v ↦ ok v | none ↦ at m k ]
