-- ===== src/FlatMap/Tests.antt =====
-- The theorems on a flat map of three keys.
use vpverk.Base.{ℕ, ◌≡◌, ◌⊎◌, refl, arith, none, some, [], ◌∷◌, ◌==◌, if◌then◌else◌}
use vpverk.Effect.{runtime_error, ok, throw}
use vpverk.FlatMap.{FlatMap, insert}
use vpverk.FlatMap.Map.{find, IsMap}
use vpverk.FlatMap.Refine.{insert-find}

abbrev three : FlatMap ℕ
three = record { keys = 2 ∷ 5 ∷ 9 ∷ []; vals = 20 ∷ 50 ∷ 90 ∷ [] }

three-IsMap : IsMap three
three-IsMap = record {
  sorted = ((omega arith, (omega arith, tt)), ((omega arith, tt), (tt, tt)));
  paired = refl;
}

insert-find_example :
    ((w : ℕ) × (find 7 three.keys three.vals ≡ some w)
      × (insert 7 70 three ≡ (throw (runtime_error "this key already exist"), three)))
    ⊎ ((find 7 three.keys three.vals ≡ none)
        × ((n : FlatMap ℕ) × (insert 7 70 three ≡ (ok tt, n))
            × IsMap n
            × ((q : ℕ)
                → find q n.keys n.vals
                  ≡ (if 7 == q then some 70 else find q three.keys three.vals))))
insert-find_example = insert-find three 7 70 three-IsMap
