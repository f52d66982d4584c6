-- ===== src/Address/History.antt =====
-- Histories of the address pool: sessions that come and go, one call after another.
use vpverk.Base.{
  ℕ, ◌≡◌, refl, arith, ◌==◌, false, Bool-cases, inl, inr, List, [], ◌∷◌, Option, some, none,
  contains, without, IsDistinct, AllIn,
}
use vpverk.Effect.{Outcome, ok, throw, abort, unfinished}
use vpverk.Address.{AddressPool, allot, rounds, release}
use vpverk.Address.Fresh.{IsHost, IsValid, allot-Allots, Allots-IsValid}

without-AllIn : (P : ℕ → Type 0) (a : ℕ) (xs : List ℕ) → AllIn P xs → AllIn P (without a xs)
unfolding without
without-AllIn P a [] h = tt
without-AllIn P a (x ∷ xs) h = elim (Bool-cases (x == a)) [
  | inl same ↦ rw same (without-AllIn P a xs h.1)
  | inr other ↦ rw other (h.0, without-AllIn P a xs h.1)
]

contains-without-false :
    (a b : ℕ) (xs : List ℕ) → contains b xs ≡ false → contains b (without a xs) ≡ false
unfolding contains without
contains-without-false a b [] h = refl
contains-without-false a b (x ∷ xs) h = ground (arith, contains-without-false a b xs)

without-IsDistinct : (a : ℕ) (xs : List ℕ) → IsDistinct xs → IsDistinct (without a xs)
unfolding without
without-IsDistinct a [] h = tt
without-IsDistinct a (x ∷ xs) h = elim (Bool-cases (x == a)) [
  | inl same ↦ rw same (without-IsDistinct a xs h.1)
  | inr other ↦ rw other (contains-without-false a x xs h.0, without-IsDistinct a xs h.1)
]

release-IsValid : (a : ℕ) (p : AddressPool) → IsValid p → IsValid (release a p)
unfolding release
release-IsValid a p v = record {
  started = v.started;
  small = v.small;
  hosts = without-AllIn IsHost a p.taken v.hosts;
  distinct = without-IsDistinct a p.taken v.distinct;
}

-- What sessions ask of the pool: a new address, or the release of one.
pub data Call : Type 0 where
  joins : Call
  leaves : ℕ → Call

module _ (check : ℕ → Outcome (Unit {0})) where
  -- A call that does not return leaves the sessions as they are.
  abbrev after : AddressPool → Option (Outcome ℕ × AddressPool) → AddressPool
  after p none = p
  after p (some (ok _, q)) = q
  after p (some (throw _, _)) = p
  after p (some (abort _, _)) = p
  after p (some (unfinished, _)) = p

  pub run : AddressPool → List Call → AddressPool
  run p [] = p
  run p (joins ∷ cs) = run (after p (allot check rounds p)) cs
  run p (leaves a ∷ cs) = run (release a p) cs

  allot-IsValid : (p : AddressPool) → IsValid p → IsValid (after p (allot check rounds p))
  allot-IsValid p v = go (allot check rounds p) refl
    where
      go : (r : Option (Outcome ℕ × AddressPool)) → allot check rounds p ≡ r → IsValid (after p r)
      go none e = v
      go (some (ok a, q)) e = Allots-IsValid v (allot-Allots check rounds p v.started v.small e)
      go (some (throw _, _)) e = v
      go (some (abort _, _)) e = v
      go (some (unfinished, _)) e = v

  -- After any history of joins and leaves the addresses taken are distinct, and each is a host
  -- address of 10.123.0.0/16; the counter stays in the range 1 to 65534.
  run-IsValid : (p : AddressPool) (cs : List Call) → IsValid p → IsValid (run p cs)
  unfolding run
  run-IsValid p [] v = v
  run-IsValid p (joins ∷ cs) v = run-IsValid (after p (allot check rounds p)) cs (allot-IsValid p v)
  run-IsValid p (leaves a ∷ cs) v = run-IsValid (release a p) cs (release-IsValid a p v)
