-- ===== src/FlatMap/Refine.antt =====
-- `at`, `insert` and `remove` do to the two vectors what they do to the map.
use vpverk.Base.{
  ℕ, zero, suc, ◌≤◌, ◌≡◌, refl, sym, ap, ◌∙◌, true, Option, none, some, List, [], ◌∷◌, length,
  get_elem?, get_elem?-some, get_elem?-lt, leb, ◌==◌, if◌then◌else◌, arith, Bool-cases,
  Option-cases, inl, inr, ◌⊎◌,
}
use vpverk.Effect.{Exception, runtime_error, Outcome, ok, throw}
use vpverk.FlatMap.{
  FlatMap, search, binary_search, at, at_try_first, first_keys, position, insert_at, erase_at,
  insert, remove, erase_found, value_at,
}
use vpverk.FlatMap.Search.{Ascending, search_sound, search_complete}
use vpverk.FlatMap.Map.{
  find, IsMap, find_at, found_at, position-none, insert_at-Inserted, erase_at-Erased,
}

-- The search finds the place of a key that the map has, and no place for another.
binary_search-found :
    (ks : List ℕ) (k i : ℕ)
    → Ascending ks
    → get_elem? ks i ≡ some k
    → binary_search ks k ≡ ok (some i)
unfolding binary_search
binary_search-found [] k i s e = absurd cc
binary_search-found (x ∷ xs) k i s e = ap ok (
    search_complete (suc (suc (length xs))) (x ∷ xs) k 0 (length xs) i s e (omega arith)
      (omega (arith, get_elem?-lt (x ∷ xs) i e)) (omega arith) (omega arith))

module _ {V : Type 0} where
  -- What `at` answers for a key without and with a value.
  abbrev pub answer : Option V → Outcome V
  answer none = throw (runtime_error "no value with this key")
  answer (some v) = ok v

  no_keys : (k : ℕ) (ks : List ℕ) (vs : List V) → (length ks == 0) ≡ true → find k ks vs ≡ none
  no_keys k [] vs e = refl
  no_keys k (x ∷ ks) vs e = absurd (ground arith)

  binary_search-missed :
      (ks : List ℕ) (vs : List V) (k : ℕ)
      → Ascending ks
      → length ks ≡ length vs
      → 1 ≤ length ks
      → find k ks vs ≡ none
      → binary_search ks k ≡ ok none
  unfolding binary_search
  binary_search-missed [] vs k s l pos e = absurd (omega arith)
  binary_search-missed (x ∷ xs) vs k s l pos e =
      elim (Option-cases (search (suc (suc (length xs))) (x ∷ xs) k 0 (length xs))) [
        | inl n ↦ ap ok n
        | inr (i, f) ↦
            let p = search_sound (suc (suc (length xs))) (x ∷ xs) k 0 (length xs) i f in
            let (v, q) = get_elem?-some vs i (omega (arith, get_elem?-lt (x ∷ xs) i p)) in
            absurd (none_some (sym e ∙ find_at k i v (x ∷ xs) vs s p q))
      ]
    where
      none_some : {v : V} → none ≡ some v → ⊥
      none_some h = cc

  -- On a map (its keys ascend, each with a value) that is not empty, `at` gives the value of the key,
  -- and throws if there is none.
  at-find :
      (m : FlatMap V) (k : ℕ) → IsMap m → 1 ≤ length m.keys → at m k ≡ answer (find k m.keys m.vals)
  unfolding at value_at
  at-find m k w pos = elim (Option-cases (find k m.keys m.vals)) [
    | inl n ↦ rw (n, binary_search-missed m.keys m.vals k w.sorted w.paired pos n)
    | inr (v, f) ↦
        let (i, p, q) = found_at k v m.keys m.vals f in
        rw (f, binary_search-found m.keys k i w.sorted p, value_at, q)
  ]

  first_keys-find :
      (n k : ℕ) (ks : List ℕ) (vs : List V)
      → Ascending ks
      → length ks ≡ length vs
      → (v : V) → first_keys n k ks vs ≡ some v
      → find k ks vs ≡ some v
  unfolding first_keys
  first_keys-find zero k ks vs s l v e = absurd cc
  first_keys-find (suc n) k [] vs s l v e = absurd cc
  first_keys-find (suc n) k (x ∷ ks) [] s l v e = absurd cc
  first_keys-find (suc n) k (x ∷ ks) (w ∷ vs) s l v e = elim (Bool-cases (x == k)) [
    | inl same ↦ rw same (rw same at e)
    | inr other ↦ rw other (first_keys-find n k ks vs s.1 (omega arith) v (rw other at e))
  ]

  -- On a map (its keys ascend, each with a value) that is not empty, `at_tryFirst` gives what `at` gives, whatever number of keys it tries
  -- first, as long as there are so many.
  at_try_first-at :
      (m : FlatMap V) (n k : ℕ)
      → IsMap m
      → 1 ≤ length m.keys
      → n ≤ length m.keys
      → at_try_first m n k ≡ at m k
  unfolding at_try_first
  at_try_first-at m n k w pos few =
      let enough : leb n (length m.keys) ≡ true = ground arith in
      elim (Option-cases (first_keys n k m.keys m.vals)) [
        | inl missed ↦ rw (enough, missed)
        | inr (v, hit) ↦
            rw (enough, hit)
              (sym (
                at-find m k w pos
                ∙ ap answer (first_keys-find n k m.keys m.vals w.sorted w.paired v hit)))
      ]

  -- On a map (its keys ascend, each with a value), `insert` throws and changes nothing if the key has a
  -- value. If it has none, the result is again a
  -- map, in ascending order, with the new value at the key and all else as it was.
  pub insert-find :
      (m : FlatMap V) (k : ℕ) (v : V)
      → IsMap m
      → ((w : V) × (find k m.keys m.vals ≡ some w)
          × (insert k v m ≡ (throw (runtime_error "this key already exist"), m)))
        ⊎ ((find k m.keys m.vals ≡ none)
            × ((n : FlatMap V) × (insert k v m ≡ (ok tt, n))
                × IsMap n
                × ((q : ℕ)
                    → find q n.keys n.vals ≡ (if k == q then some v else find q m.keys m.vals))))
  unfolding insert
  insert-find m k v w = elim (Option-cases (position m.keys k)) [
    | inl stop ↦
        let (old, f) = position-none k m.keys m.vals w.paired stop in
        inl (old, f, rw (insert, stop))
    | inr (p, go_on) ↦
        let (fresh, up, same, found) =
          insert_at-Inserted k v p m.keys m.vals w.sorted w.paired go_on in
        inr (
          fresh,
          (
            record { keys = insert_at p k m.keys; vals = insert_at p v m.vals },
            rw (insert, go_on),
            record { sorted = up; paired = same },
            found,
          ),
        )
  ]

  -- On a map (its keys ascend, each with a value), `remove` throws and changes nothing if the key has no
  -- value, also if the map is empty. If it has one,
  -- the result is again a map, in ascending order, without the key and with all else as it was.
  remove-find :
      (m : FlatMap V) (k : ℕ)
      → IsMap m
      → ((v : V) × (find k m.keys m.vals ≡ some v)
          × ((n : FlatMap V) × (remove k m ≡ (ok tt, n))
              × IsMap n
              × ((q : ℕ) → find q n.keys n.vals ≡ (if k == q then none else find q m.keys m.vals))))
        ⊎ ((find k m.keys m.vals ≡ none) × ((e : Exception) × (remove k m ≡ (throw e, m))))
  unfolding remove erase_found
  remove-find m k w = elim (Bool-cases (length m.keys == 0)) [
    | inl empty ↦ inr (
      no_keys k m.keys m.vals empty,
      (runtime_error "flat_map is empty, nothing to remove", rw (remove, empty)),
    )
    | inr some_keys ↦ elim (Option-cases (find k m.keys m.vals)) [
      | inl n ↦ inr (
        n,
        (
          runtime_error "no value with this key",
          rw (
            remove,
            some_keys,
            binary_search-missed m.keys m.vals k w.sorted w.paired (ground arith) n,
            erase_found,
          ),
        ),
      )
      | inr (v, f) ↦
          let (i, p, q) = found_at k v m.keys m.vals f in
          let (up, same, found) = erase_at-Erased k i m.keys m.vals w.sorted w.paired p in
          inl (
            v,
            f,
            (
              record { keys = erase_at i m.keys; vals = erase_at i m.vals },
              rw (remove, some_keys, binary_search-found m.keys k i w.sorted p, erase_found),
              record { sorted = up; paired = same },
              found,
            ),
          )
    ]
  ]
