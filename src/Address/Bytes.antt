-- ===== src/Address/Bytes.antt =====
-- The `|` of `getNewAddress` adds: the low 16 bits of `address_begin` are clear.
use Prim.Native.Nat.{bit_or}
use vpverk.Base.{
  ℕ, zero, suc, ◌+◌, ◌<◌, ◌≡◌, refl, Bool, true, false, arith, ◌==◌, ==_iff, if◌then◌else◌,
  Bool-cases, inl, inr,
}
use vpverk.Address.{address_begin, address_of}

-- The counters below a bound, from the top: each gives the sum.
adds_below : ℕ → Bool
adds_below zero = true
adds_below (suc top) =
    let lower = adds_below top in
    if bit_or address_begin top == address_begin + top then lower else false

adds_at :
    (bound c : ℕ) → c < bound → adds_below bound ≡ true → bit_or address_begin c ≡ address_begin + c
unfolding adds_below
adds_at zero c lt h = absurd (omega arith)
adds_at (suc top) c lt h = elim (Bool-cases (c == top)) [
  | inl same ↦ ground (arith, ==_iff (bit_or address_begin top) (address_begin + top))
  | inr other ↦ ground (arith, adds_at top c)
]

pub address_of-eq : (c : ℕ) → c < 65536 → address_of c ≡ address_begin + c
unfolding address_of adds_below
address_of-eq c h = adds_at 65536 c h refl
