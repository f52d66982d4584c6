-- ===== src/Aes/Box.antt =====
-- A cipher in a box, which shows that the laws of `Cipher` can be met: the key stream counts up
-- from the first number of the vector, and is added to the text.
use vpverk.Base.{
  ℕ, suc, ◌+◌, ◌-◌, ◌≡◌, refl, sym, ap, ◌∙◌, Option, some, List, [], ◌∷◌, ◌++◌, length, take, drop,
  arith, take-append_self, drop-append_self, length-append,
}
use vpverk.Aes.{Cipher}

abbrev mask : ℕ → List ℕ → List ℕ
mask c [] = []
mask c (x ∷ xs) = (x + c) ∷ mask (c + 1) xs

abbrev unmask : ℕ → List ℕ → List ℕ
unmask c [] = []
unmask c (y ∷ ys) = (y - c) ∷ unmask (c + 1) ys

abbrev first : List ℕ → ℕ
first [] = 0
first (x ∷ xs) = x

length-mask : (c : ℕ) (xs : List ℕ) → length (mask c xs) ≡ length xs
length-mask c [] = refl
length-mask c (x ∷ xs) = ap suc (length-mask (c + 1) xs)

length-unmask : (c : ℕ) (xs : List ℕ) → length (unmask c xs) ≡ length xs
length-unmask c [] = refl
length-unmask c (x ∷ xs) = ap suc (length-unmask (c + 1) xs)

unmask-mask : (c : ℕ) (xs : List ℕ) → unmask c (mask c xs) ≡ xs
unmask-mask c [] = refl
unmask-mask c (x ∷ xs) = ground (arith, unmask-mask (c + 1) xs)

unmask-append :
    (c : ℕ) (ys zs : List ℕ) → unmask c (ys ++ zs) ≡ unmask c ys ++ unmask (c + length ys) zs
unmask-append c [] zs = ap (λ (k : ℕ). unmask k zs) (omega arith)
unmask-append c (y ∷ ys) zs = ap (◌∷◌ (y - c)) (
    unmask-append (c + 1) ys zs
    ∙ ap (λ (k : ℕ). unmask (c + 1) ys ++ unmask k zs)
        (let e : c + 1 + length ys ≡ c + suc (length ys) = omega arith in e))

pub undoes_law :
    (c d : ℕ) (x y : List ℕ)
    → Path (Option (List ℕ × ℕ)) (some (mask c x, c + length x)) (some (y, d))
    → Path (Option (List ℕ × ℕ)) (some (unmask c y, c + length y)) (some (x, d))
undoes_law c d x y e =
    let ey : mask c x ≡ y = ground arith in
    let ed : c + length x ≡ d = ground arith in
    rw (← ey) (ground (arith, unmask-mask c x, length-mask c x, ed))

pub splits_law :
    (c d : ℕ) (y z x : List ℕ)
    → Path (Option (List ℕ × ℕ)) (some (unmask c (y ++ z), c + length (y ++ z))) (some (x, d))
    → (m : ℕ) × Path
        (Option (List ℕ × ℕ))
        (some (unmask c y, c + length y))
        (some (take (length y) x, m))
      × Path (Option (List ℕ × ℕ)) (some (unmask m z, m + length z)) (some (drop (length y) x, d))
splits_law c d y z x e =
    let ex : unmask c (y ++ z) ≡ x = ground arith in
    let ed : c + length (y ++ z) ≡ d = ground arith in
    let whole : unmask c y ++ unmask (c + length y) z ≡ x = sym (unmask-append c y z) ∙ ex in
    let front : take (length y) x ≡ unmask c y =
      rw (← whole, ← length-unmask c y) (take-append_self (unmask c y) _) in
    let back : drop (length y) x ≡ unmask (c + length y) z =
      rw (← whole, ← length-unmask c y) (drop-append_self (unmask c y) _) in
    (c + length y, ground (arith, front), ground (arith, back, ed, length-append y z))

pub same_start_law :
    (k iv : List ℕ) (c d : ℕ)
    → Path (Option ℕ) (some (first iv)) (some c)
    → Path (Option ℕ) (some (first iv)) (some d)
    → c ≡ d
same_start_law k iv c d e f = cc

pub same_length_law :
    (c d : ℕ) (x y : List ℕ)
    → Path (Option (List ℕ × ℕ)) (some (mask c x, c + length x)) (some (y, d))
    → length y ≡ length x
same_length_law c d x y e = ground (arith, length-mask c x)

abbrev pub box : Cipher
box = record {
  Context = ℕ;
  encrypt_init = λ k iv. some (first iv);
  decrypt_init = λ k iv. some (first iv);
  encrypt_update = λ c n x. some (mask c x, c + length x);
  decrypt_update = λ c n y. some (unmask c y, c + length y);
  same_start = same_start_law;
  same_length = λ c d x y small e. same_length_law c d x y e;
  undoes = λ c d x y small e. undoes_law c d x y e;
  splits = λ c d y z x small e. splits_law c d y z x e;
}
