-- ===== src/Settings/Order.antt =====
-- The order of logins, and sorting by it.
use vpverk.Base.{◌≡◌, refl, Bool, true, false, List, [], ◌∷◌, arith, Bool-cases, inl, inr, ◌⊎◌, ◌↔◌}
use vpverk.Settings.{Login, less, insert, sort}

pub less_irrefl : (x : Login) → less x x ≡ false
unfolding less
less_irrefl [] = refl
less_irrefl (a ∷ x) = ground (arith, less_irrefl x)

less_asymm : (x y : Login) → less x y ≡ true → less y x ≡ false
unfolding less
less_asymm [] [] h = refl
less_asymm [] (b ∷ y) h = refl
less_asymm (a ∷ x) [] h = cc
less_asymm (a ∷ x) (b ∷ y) h = ground (arith, less_asymm x y)

less_trans : (x y z : Login) → less x y ≡ true → less y z ≡ true → less x z ≡ true
unfolding less
less_trans x [] z h k = cc
less_trans x (b ∷ y) [] h k = cc
less_trans [] (b ∷ y) (c ∷ z) h k = refl
less_trans (a ∷ x) (b ∷ y) (c ∷ z) h k = ground (arith, less_trans x y z)

-- Two logins of which neither is less are one.
pub less_total : (x y : Login) → less x y ≡ false → less y x ≡ false → x ≡ y
unfolding less
less_total [] [] h k = refl
less_total [] (b ∷ y) h k = cc
less_total (a ∷ x) [] h k = cc
less_total (a ∷ x) (b ∷ y) h k = ground (arith, less_total x y)

-- `z ≤ y ≤ x` gives `z ≤ x`, where `y ≤ x` is that `x` is not less.
pub not-less_trans : (x y z : Login) → less x y ≡ false → less y z ≡ false → less x z ≡ false
not-less_trans x y z h k = elim (Bool-cases (less x z)) [
  | inr no_less ↦ no_less
  | inl yes_less ↦ elim (Bool-cases (less y x)) [
    | inl lt ↦ absurd (clash (less_trans y x z lt yes_less) k)
    | inr ge ↦ absurd (clash (rw (less_total x y h ge) at yes_less) k)
  ]
]
  where
    clash : {b : Bool} → b ≡ true → b ≡ false → ⊥
    clash p q = cc

-- No login of the list is less than `x`.
abbrev pub AllFrom : Login → List Login → Type 0
AllFrom x [] = Unit {0}
AllFrom x (y ∷ ys) = (less y x ≡ false) × AllFrom x ys

abbrev pub IsSorted : List Login → Type 0
IsSorted [] = Unit {0}
IsSorted (x ∷ xs) = AllFrom x xs × IsSorted xs

AllFrom-mono : (x y : Login) (zs : List Login) → less y x ≡ false → AllFrom y zs → AllFrom x zs
AllFrom-mono x y [] h a = tt
AllFrom-mono x y (z ∷ zs) h a = (not-less_trans z y x a.0 h, AllFrom-mono x y zs h a.1)

AllFrom-insert :
    (x y : Login) (zs : List Login) → less y x ≡ false → AllFrom x zs → AllFrom x (insert y zs)
unfolding insert
AllFrom-insert x y [] h a = (h, tt)
AllFrom-insert x y (z ∷ zs) h a = ground (arith, AllFrom-insert x y zs h a.1)

insert-IsSorted : (x : Login) (ys : List Login) → IsSorted ys → IsSorted (insert x ys)
unfolding insert
insert-IsSorted x [] s = (tt, tt)
insert-IsSorted x (y ∷ ys) s = elim (Bool-cases (less y x)) [
  | inl lt ↦ rw lt (AllFrom-insert y x ys (less_asymm y x lt) s.0, insert-IsSorted x ys s.1)
  | inr ge ↦ rw ge ((ge, AllFrom-mono x y ys ge s.0), s)
]

pub sort-IsSorted : (xs : List Login) → IsSorted (sort xs)
unfolding sort
sort-IsSorted [] = tt
sort-IsSorted (x ∷ xs) = insert-IsSorted x (sort xs) (sort-IsSorted xs)

abbrev pub Occurs : Login → List Login → Type 0
Occurs x [] = ⊥
Occurs x (y ∷ ys) = (y ≡ x) ⊎ Occurs x ys

Occurs-insert : (x y : Login) (zs : List Login) → Occurs x (insert y zs) ↔ Occurs x (y ∷ zs)
unfolding insert
Occurs-insert x y [] = (λ h. h, λ h. h)
Occurs-insert x y (z ∷ zs) = elim (Bool-cases (less z y)) [
  | inr ge ↦ rw ge (λ h. h, λ h. h)
  | inl lt ↦ rw lt (forth (Occurs-insert x y zs).0, back (Occurs-insert x y zs).1)
]
  where
    forth :
        (Occurs x (insert y zs) → Occurs x (y ∷ zs))
        → (z ≡ x) ⊎ Occurs x (insert y zs)
        → Occurs x (y ∷ z ∷ zs)
    forth ih (inl e) = inr (inl e)
    forth ih (inr h) = elim (ih h) [ inl e ↦ inl e | inr k ↦ inr (inr k) ]

    back :
        (Occurs x (y ∷ zs) → Occurs x (insert y zs))
        → Occurs x (y ∷ z ∷ zs)
        → (z ≡ x) ⊎ Occurs x (insert y zs)
    back ih (inl e) = inr (ih (inl e))
    back ih (inr (inl e)) = inl e
    back ih (inr (inr h)) = inr (ih (inr h))

-- Sorting loses no login and adds none.
pub Occurs-sort : (x : Login) (ys : List Login) → Occurs x (sort ys) ↔ Occurs x ys
unfolding sort
Occurs-sort x [] = (λ h. h, λ h. h)
Occurs-sort x (y ∷ ys) =
    let (forth, back) = Occurs-sort x ys in
    let (into, from) = Occurs-insert x y (sort ys) in
    (
      λ h. elim (into h) [ inl e ↦ inl e | inr k ↦ inr (forth k) ],
      λ h. from (elim h [ inl e ↦ inl e | inr k ↦ inr (back k) ]),
    )
