-- ===== src/Router/Counts.antt =====
-- How many requests there are to add an address, and to remove one.
use vpverk.Base.{
  ℕ, ◌+◌, ◌≡◌, false, ◌&&◌, not, Option, none, some, List, [], ◌∷◌, ◌++◌, ◌==◌, if◌then◌else◌,
  arith,
}
use vpverk.Router.{Route, Router, registered, erase, apply}

abbrev pub held : ℕ → Router → ℕ
held a m = if registered a m then 1 else 0

abbrev add_of : ℕ → Route → ℕ
add_of a r = if r.add_or_remove && r.addr == a then 1 else 0

abbrev remove_of : ℕ → Route → ℕ
remove_of a r = if not r.add_or_remove && r.addr == a then 1 else 0

unfoldable pub adds : ℕ → List Route → ℕ
adds a [] = 0
adds a (r ∷ rs) = add_of a r + adds a rs

unfoldable pub removes : ℕ → List Route → ℕ
removes a [] = 0
removes a (r ∷ rs) = remove_of a r + removes a rs

pub adds-append : (a : ℕ) (xs ys : List Route) → adds a (xs ++ ys) ≡ adds a xs + adds a ys
unfolding adds
adds-append a [] ys = omega arith
adds-append a (x ∷ xs) ys = omega (arith, adds-append a xs ys)

pub removes-append :
    (a : ℕ) (xs ys : List Route) → removes a (xs ++ ys) ≡ removes a xs + removes a ys
unfolding removes
removes-append a [] ys = omega arith
removes-append a (x ∷ xs) ys = omega (arith, removes-append a xs ys)

adds_one : (a : ℕ) (r : Route) → adds a (r ∷ []) ≡ add_of a r
unfolding adds
adds_one a r = omega arith

removes_one : (a : ℕ) (r : Route) → removes a (r ∷ []) ≡ remove_of a r
unfolding removes
removes_one a r = omega arith

pub registered-erase :
    (a b : ℕ) (m : Router) → registered b (erase a m) ≡ (if a == b then false else registered b m)
unfolding registered erase
registered-erase a b [] = ground arith
registered-erase a b ((c, v) ∷ m) = ground (arith, registered-erase a b m)

-- A request that is carried out changes what is held by one, at its address only.
pub apply-held :
    (a : ℕ) (m : Router) (r : Route) {m' : Router}
    → apply m r ≡ some m'
    → held a m' + remove_of a r ≡ held a m + add_of a r
unfolding apply registered
apply-held a m r e = ground (arith, registered-erase r.addr a m)

-- The requests that were popped.
unfoldable pub popped : List (Option Route) → List Route
popped [] = []
popped (none ∷ ps) = popped ps
popped (some r ∷ ps) = r ∷ popped ps
