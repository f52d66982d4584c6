-- ===== src/FlatMap/Map.antt =====
-- The operations against the map that the two vectors stand for.
use vpverk.Base.{
  ℕ, zero, suc, ◌<◌, ◌≡◌, refl, ap, true, false, Option, none, some, List, [], ◌∷◌, length,
  get_elem?, ltb, ◌==◌, if◌then◌else◌, arith, Bool-cases, Option-cases, inl, inr,
}
use vpverk.FlatMap.{FlatMap, position, insert_at, erase_at}
use vpverk.FlatMap.Search.{Above, Ascending, Above-at}

Above-lt : (k x : ℕ) (ks : List ℕ) → k < x → Above x ks → Above k ks
Above-lt k x [] lt h = tt
Above-lt k x (y ∷ ks) lt h = (omega (arith, h.0), Above-lt k x ks lt h.1)

Above-insert_at : (x k p : ℕ) (ks : List ℕ) → x < k → Above x ks → Above x (insert_at p k ks)
unfolding insert_at
Above-insert_at x k zero ks lt h = (lt, h)
Above-insert_at x k (suc p) [] lt h = (lt, tt)
Above-insert_at x k (suc p) (y ∷ ks) lt h = (h.0, Above-insert_at x k p ks lt h.1)

Above-erase_at : (x i : ℕ) (ks : List ℕ) → Above x ks → Above x (erase_at i ks)
unfolding erase_at
Above-erase_at x i [] h = tt
Above-erase_at x zero (y ∷ ks) h = h.1
Above-erase_at x (suc i) (y ∷ ks) h = (h.0, Above-erase_at x i ks h.1)

module _ {V : Type 0} where
  -- The value that stands with a key.
  abbrev pub find : ℕ → List ℕ → List V → Option V
  find k [] vs = none
  find k (x ∷ ks) [] = none
  find k (x ∷ ks) (v ∷ vs) = if x == k then some v else find k ks vs

  -- The keys ascend, and each has a value.
  pub record IsMap (m : FlatMap V) : Type 0 where
    pub sorted : Ascending m.keys
    pub paired : length m.keys ≡ length m.vals

  find-Above : (k : ℕ) (ks : List ℕ) (vs : List V) → Above k ks → find k ks vs ≡ none
  find-Above k [] vs h = refl
  find-Above k (x ∷ ks) [] h = refl
  find-Above k (x ∷ ks) (v ∷ vs) h = ground (arith, find-Above k ks vs h.1, h.0)

  -- What an insertion at the place found does.
  abbrev Inserted : ℕ → V → ℕ → List ℕ → List V → Type 0
  Inserted k v p ks vs =
      (find k ks vs ≡ none)
      × Ascending (insert_at p k ks)
      × (length (insert_at p k ks) ≡ length (insert_at p v vs))
      × ((q : ℕ)
          → find q (insert_at p k ks) (insert_at p v vs)
            ≡ (if k == q then some v else find q ks vs))

  pub insert_at-Inserted :
      (k : ℕ) (v : V) (p : ℕ) (ks : List ℕ) (vs : List V)
      → Ascending ks
      → length ks ≡ length vs
      → position ks k ≡ some p
      → Inserted k v p ks vs
  unfolding insert_at position
  insert_at-Inserted k v p [] [] s l e =
      let z : zero ≡ p = cc in rw (← z) (refl, (tt, tt), refl, λ q. refl)
  insert_at-Inserted k v p [] (w ∷ vs) s l e = absurd (omega arith)
  insert_at-Inserted k v p (x ∷ ks) [] s l e = absurd (omega arith)
  insert_at-Inserted k v p (x ∷ ks) (w ∷ vs) s l e = elim (Bool-cases (ltb x k)) [
    | inl lt ↦ elim (Option-cases (position ks k)) [
      | inl stop ↦ absurd (ground (arith, stop))
      | inr (r, go_on) ↦
          let z : suc r ≡ p = ground (arith, go_on) in
          let (fresh, up, same, found) = insert_at-Inserted k v r ks vs s.1 (omega arith) go_on in
          let other : (x == k) ≡ false = ground arith in
          rw (← z) (
            rw other fresh,
            (Above-insert_at x k r ks (ground arith) s.0, up),
            ap suc same,
            λ q. ground (arith, found q),
          )
    ]
    | inr ge ↦ elim (Bool-cases (x == k)) [
      | inl same ↦ absurd (ground (arith, same))
      | inr other ↦
          let z : zero ≡ p = ground arith in
          let less : k < x = ground arith in
          let rest = Above-lt k x ks less s.0 in
          rw (← z) (rw other (find-Above k ks vs rest), ((less, rest), s), ap suc l, λ q. refl)
    ]
  ]

  pub position-none :
      (k : ℕ) (ks : List ℕ) (vs : List V)
      → length ks ≡ length vs
      → position ks k ≡ none
      → (v : V) × (find k ks vs ≡ some v)
  unfolding position
  position-none k [] vs l e = absurd cc
  position-none k (x ∷ ks) [] l e = absurd (omega arith)
  position-none k (x ∷ ks) (w ∷ vs) l e = elim (Bool-cases (ltb x k)) [
    | inl lt ↦
        let other : (x == k) ≡ false = ground arith in
        rw other (position-none k ks vs (omega arith) (stops (position ks k) (rw lt at e)))
    | inr ge ↦ let same : (x == k) ≡ true = ground arith in rw same (w, refl)
  ]
    where
      stops :
          (r : Option ℕ)
          → Path (Option ℕ) (elim r [ none ↦ none | some p ↦ some (suc p) ]) none
          → r ≡ none
      stops none h = refl
      stops (some p) h = absurd cc

  -- A place with its key and its value.
  pub find_at :
      (k i : ℕ) (v : V) (ks : List ℕ) (vs : List V)
      → Ascending ks
      → get_elem? ks i ≡ some k
      → get_elem? vs i ≡ some v
      → find k ks vs ≡ some v
  find_at k i v [] vs s e f = absurd cc
  find_at k i v (x ∷ ks) [] s e f = absurd cc
  find_at k zero v (x ∷ ks) (w ∷ vs) s e f = ground arith
  find_at k (suc i) v (x ∷ ks) (w ∷ vs) s e f =
      let up : x < k = Above-at x ks i k s.0 e in
      let other : (x == k) ≡ false = ground arith in rw other (find_at k i v ks vs s.1 e f)

  pub found_at :
      (k : ℕ) (v : V) (ks : List ℕ) (vs : List V)
      → find k ks vs ≡ some v
      → (i : ℕ) × (get_elem? ks i ≡ some k) × (get_elem? vs i ≡ some v)
  found_at k v [] vs e = absurd cc
  found_at k v (x ∷ ks) [] e = absurd cc
  found_at k v (x ∷ ks) (w ∷ vs) e = elim (Bool-cases (x == k)) [
    | inl same ↦ (zero, ground arith, rw same at e)
    | inr other ↦ let (i, p, q) = found_at k v ks vs (rw other at e) in (suc i, p, q)
  ]

  -- What an erasure at the place of a key does.
  abbrev Erased : ℕ → ℕ → List ℕ → List V → Type 0
  Erased k i ks vs =
      Ascending (erase_at i ks)
      × (length (erase_at i ks) ≡ length (erase_at i vs))
      × ((q : ℕ) → find q (erase_at i ks) (erase_at i vs) ≡ (if k == q then none else find q ks vs))

  pub erase_at-Erased :
      (k i : ℕ) (ks : List ℕ) (vs : List V)
      → Ascending ks
      → length ks ≡ length vs
      → get_elem? ks i ≡ some k
      → Erased k i ks vs
  unfolding erase_at
  erase_at-Erased k i [] vs s l e = absurd cc
  erase_at-Erased k i (x ∷ ks) [] s l e = absurd (omega arith)
  erase_at-Erased k zero (x ∷ ks) (w ∷ vs) s l e = (
    s.1,
    omega arith,
    λ q. elim (Bool-cases (k == q)) [
      | inl same ↦ ground (arith, find-Above x ks vs s.0)
      | inr other ↦ ground arith
    ],
  )
  erase_at-Erased k (suc i) (x ∷ ks) (w ∷ vs) s l e =
      let (up, same, found) = erase_at-Erased k i ks vs s.1 (omega arith) e in
      let less : x < k = Above-at x ks i k s.0 e in
      ((Above-erase_at x i ks s.0, up), ap suc same, λ q. ground (arith, found q))
