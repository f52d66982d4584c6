-- ===== src/Session/Salt.antt =====
-- The salt of `exchangeAESkey` and of the client's `startAsync`: the bytes 12 to 23 of the key.
use Prim.Native.Nat.{bit_xor}
use vpverk.Base.{
  ℕ, zero, suc, ◌+◌, ◌≤◌, ◌<◌, ◌≡◌, refl, ap, ◌∙◌, List, [], ◌∷◌, ◌++◌, length, set, length-set,
  arith,
}

-- `"Chara_VerKys"`
abbrev salt : List ℕ
salt = b'C' ∷ b'h' ∷ b'a' ∷ b'r' ∷ b'a' ∷ b'_' ∷ b'V' ∷ b'e' ∷ b'r' ∷ b'K' ∷ b'y' ∷ b's' ∷ []

abbrev byte_of : List ℕ → ℕ → ℕ
byte_of [] i = 0
byte_of (x ∷ xs) zero = x
byte_of (x ∷ xs) (suc i) = byte_of xs i

-- `a[i+len] ^= salt[i]`, from the place `i + len` on.
unfoldable salt_from : List ℕ → ℕ → List ℕ → List ℕ
salt_from [] i a = a
salt_from (c ∷ cs) i a = salt_from cs (suc i) (set a i (bit_xor (byte_of a i) c))

unfoldable pub add_salt : List ℕ → List ℕ
unfolding salt_from
add_salt a = salt_from salt 12 a

set-append : (xs ys : List ℕ) (i v : ℕ) → i < length xs → set (xs ++ ys) i v ≡ set xs i v ++ ys
set-append [] ys i v h = absurd (omega arith)
set-append (x ∷ xs) ys zero v h = refl
set-append (x ∷ xs) ys (suc i) v h = ap (◌∷◌ x) (set-append xs ys i v (omega arith))

byte_of-append : (xs ys : List ℕ) (i : ℕ) → i < length xs → byte_of (xs ++ ys) i ≡ byte_of xs i
byte_of-append [] ys i h = absurd (omega arith)
byte_of-append (x ∷ xs) ys zero h = refl
byte_of-append (x ∷ xs) ys (suc i) h = byte_of-append xs ys i (omega arith)

salt_from-append :
    (cs : List ℕ) (i : ℕ) (xs ys : List ℕ)
    → i + length cs ≤ length xs
    → salt_from cs i (xs ++ ys) ≡ salt_from cs i xs ++ ys
unfolding salt_from
salt_from-append [] i xs ys h = refl
salt_from-append (c ∷ cs) i xs ys h =
    ap (λ (a : List ℕ). salt_from cs (suc i) a)
      (ap (λ (b : ℕ). set (xs ++ ys) i (bit_xor b c)) (byte_of-append xs ys i (omega arith))
        ∙ set-append xs ys i (bit_xor (byte_of xs i) c) (omega arith))
    ∙ salt_from-append cs (suc i) (set xs i (bit_xor (byte_of xs i) c)) ys
        (omega (arith, length-set xs i (bit_xor (byte_of xs i) c)))

length-salt_from : (cs : List ℕ) (i : ℕ) (a : List ℕ) → length (salt_from cs i a) ≡ length a
unfolding salt_from
length-salt_from [] i a = refl
length-salt_from (c ∷ cs) i a =
    length-salt_from cs (suc i) (set a i (bit_xor (byte_of a i) c))
    ∙ length-set a i (bit_xor (byte_of a i) c)

pub length-add_salt : (a : List ℕ) → length (add_salt a) ≡ length a
unfolding add_salt
length-add_salt a = length-salt_from salt 12 a

-- The salt stays within the first 24 bytes: what stands behind a key is not touched.
pub add_salt-append :
    (key rest : List ℕ) → 24 ≤ length key → add_salt (key ++ rest) ≡ add_salt key ++ rest
unfolding add_salt
add_salt-append key rest h = salt_from-append salt 12 key rest (omega arith)
