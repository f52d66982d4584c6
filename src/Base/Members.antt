-- ===== src/Base/Members.antt =====
-- Sets of numbers as lists: the test for a member, removal, and the pigeonhole bound.
use Prim.Native.Nat.{ℕ, ◌≤◌, ◌<◌}
use mathlib.Core.Path.{◌≡◌, refl}
use mathlib.Core.Logic.{◌≢◌}
use mathlib.Core.Bool.{Bool, true, false, ◌||◌}
use mathlib.Core.List.{List, [], ◌∷◌}
use native.Mathlib.Omega.{arith}
use vpverk.Base.Tests.{◌==◌, if◌then◌else◌}
use vpverk.Base.Lists.{length}

unfoldable pub contains : ℕ → List ℕ → Bool
contains a [] = false
contains a (x ∷ xs) = x == a || contains a xs

-- `std::set::erase` by key
unfoldable pub without : ℕ → List ℕ → List ℕ
without a [] = []
without a (x ∷ xs) = let rest = without a xs in if x == a then rest else x ∷ rest

pub contains-without_ne :
    (a b : ℕ) (xs : List ℕ) → a ≢ b → contains b (without a xs) ≡ contains b xs
unfolding contains without
contains-without_ne a b [] h = refl
contains-without_ne a b (x ∷ xs) h = ground (arith, contains-without_ne a b xs h)

pub contains-without_self : (a : ℕ) (xs : List ℕ) → contains a (without a xs) ≡ false
unfolding contains without
contains-without_self a [] = refl
contains-without_self a (x ∷ xs) = ground (arith, contains-without_self a xs)

length-without-le : (a : ℕ) (xs : List ℕ) → length (without a xs) ≤ length xs
unfolding without
length-without-le a [] = omega arith
length-without-le a (x ∷ xs) = ground (arith, length-without-le a xs)

pub length-without-lt :
    (a : ℕ) (xs : List ℕ) → contains a xs ≡ true → length (without a xs) < length xs
unfolding contains without
length-without-lt a [] h = absurd (ground arith)
length-without-lt a (x ∷ xs) h = ground (arith, length-without-le a xs, length-without-lt a xs)

-- No element occurs twice.
abbrev pub IsDistinct : List ℕ → Type 0
IsDistinct [] = Unit {0}
IsDistinct (x ∷ xs) = (contains x xs ≡ false) × IsDistinct xs

abbrev pub AllIn : (ℕ → Type 0) → List ℕ → Type 0
AllIn P [] = Unit {0}
AllIn P (x ∷ xs) = P x × AllIn P xs
