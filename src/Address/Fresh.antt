-- ===== src/Address/Fresh.antt =====
-- What `getNewAddress` hands out, and when its loop ends.
use vpverk.Base.{
  ℕ, zero, suc, ◌+◌, ◌≤◌, ◌<◌, ◌≡◌, ◌≢◌, refl, sym, ◌∙◌, arith, true, false, Bool-cases, inl, inr,
  Option, ◌⊎◌, List, ◌∷◌, length, some, none, contains, without, contains-without_ne,
  length-without-lt, IsDistinct, AllIn,
}
use vpverk.Effect.{Outcome, ok, throw, abort, unfinished}
use vpverk.Address.{AddressPool, address_begin, next_counter, address_of, allot, rounds}
use vpverk.Address.Bytes.{address_of-eq}
use vpverk.Address.Cycle.{
  nth_counter, next_counter-eq, nth_counter_bounds, nth_counter-next, nth_counter_ne,
}

-- An address of 10.123.0.0/16 that is not the network's, the server's own or the broadcast one.
pub record IsHost (a : ℕ) : Type 0 where
  pub above : address_begin + 2 ≤ a
  pub below : a ≤ address_begin + 65534

pub record IsValid (p : AddressPool) : Type 0 where
  pub started : 1 ≤ p.counter
  pub small : p.counter ≤ 65534
  pub hosts : AllIn IsHost p.taken
  pub distinct : IsDistinct p.taken

-- The address of the round after `k` others.
abbrev nth_address : ℕ → ℕ → ℕ
nth_address c k = address_of (nth_counter c k)

nth_address-IsHost : (c k : ℕ) → IsHost (nth_address c k)
nth_address-IsHost c k =
    omega (arith, nth_counter_bounds c k, address_of-eq (nth_counter c k) (omega arith))

nth_address_ne : (c j k : ℕ) → 1 ≤ c → j < k → k < 65533 → nth_address c k ≢ nth_address c j
nth_address_ne c j k l h m = λ e. nth_counter_ne c j k l h m (
    omega (
      arith,
      e,
      address_of-eq (nth_counter c k) (omega arith),
      address_of-eq (nth_counter c j) (omega arith),
    ))

-- With fewer addresses taken than rounds made, some round finds a free one.
free_round :
    (c n : ℕ) (taken : List ℕ)
    → 1 ≤ c
    → n ≤ 65533
    → length taken < n
    → (k : ℕ) × (k < n) × (contains (nth_address c k) taken ≡ false)
free_round c zero taken l h m = absurd (omega arith)
free_round c (suc n) taken l h m = elim (Bool-cases (contains (nth_address c n) taken)) [
  | inr free ↦ (n, omega arith, free)
  | inl held ↦
      let a = nth_address c n in
      let (k, lt, e) =
        free_round c n (without a taken) l (omega arith)
          (omega (arith, length-without-lt a taken held)) in
      (
        k,
        omega arith,
        sym (
              contains-without_ne a (nth_address c k) taken
                (nth_address_ne c k n l lt (omega arith)))
            ∙ e,
      )
]

-- The pool `q` is `p` with the new address `a`.
pub record Allots (p : AddressPool) (a : ℕ) (q : AddressPool) : Type 0 where
  pub fresh : contains a p.taken ≡ false
  pub host : IsHost a
  pub added : q.taken ≡ a ∷ p.taken
  pub low : 1 ≤ q.counter
  pub high : q.counter ≤ 65534

pub next_address-IsHost : (c : ℕ) → 1 ≤ c → c ≤ 65534 → IsHost (address_of (next_counter c))
next_address-IsHost c l h = rw (next_counter-eq c l h) (nth_address-IsHost c 0)

next_counter_bounds : (c : ℕ) → 1 ≤ c → c ≤ 65534 → (1 ≤ next_counter c) × (next_counter c ≤ 65534)
next_counter_bounds c l h = omega (arith, next_counter-eq c l h)

module _ (check : ℕ → Outcome (Unit {0})) where
  pub allot-Allots :
      (fuel : ℕ) (p : AddressPool) {a : ℕ} {q : AddressPool}
      → 1 ≤ p.counter
      → p.counter ≤ 65534
      → allot check fuel p ≡ some (ok a, q)
      → Allots p a q
  unfolding allot
  allot-Allots zero p l h e = absurd (ground arith)
  allot-Allots (suc fuel) p {a} {q} l h e = ground (
    arith,
    next_address-IsHost p.counter l h,
    next_counter_bounds p.counter l h,
    allot-Allots fuel (record p { counter = next_counter p.counter }) {a = a} {q = q},
  )

  -- How the loop ends where the check does not let an address pass.
  abbrev pub ended_by : Outcome (Unit {0}) → AddressPool → Option (Outcome ℕ × AddressPool)
  ended_by (ok u) q = none
  ended_by (throw e) q = some (throw e, q)
  ended_by (abort m) q = some (abort m, q)
  ended_by unfinished q = none

  -- The loop allots an address, or ends as the check does at an address that it does not let pass.
  abbrev Returns : Option (Outcome ℕ × AddressPool) → AddressPool → Type 0
  Returns x p =
      ((a : ℕ) × (q : AddressPool) × (x ≡ some (ok a, q)))
      ⊎ ((a : ℕ) × (q : AddressPool) × IsHost a
          × (check a ≢ ok tt)
          × (x ≡ ended_by (check a) q)
          × (q.taken ≡ p.taken))

  -- The round at an address, by what the check says of it
  at_address :
      (fuel : ℕ) (p : AddressPool) (o : Outcome (Unit {0}))
      → check (address_of (next_counter p.counter)) ≡ o
      → IsHost (address_of (next_counter p.counter))
      → (contains (address_of (next_counter p.counter)) p.taken ≡ true
          → Returns (allot check fuel (record p { counter = next_counter p.counter })) p)
      → Returns (allot check (suc fuel) p) p
  unfolding allot
  at_address fuel p (ok u) e host again =
      elim (Bool-cases (contains (address_of (next_counter p.counter)) p.taken)) [
        | inr free ↦ inl (
          address_of (next_counter p.counter),
          record {
            counter = next_counter p.counter;
            taken = address_of (next_counter p.counter) ∷ p.taken;
          },
          rw (allot, e, free) refl,
        )
        | inl held ↦ rw (allot, e, held) (again held)
      ]
  at_address fuel p (throw y) e host again = inr (
    address_of (next_counter p.counter),
    record p { counter = next_counter p.counter },
    host,
    λ q. absurd (let z : throw y ≡ ok tt = sym e ∙ q in ground arith),
    rw (allot, e) refl,
    refl,
  )
  at_address fuel p (abort m) e host again = inr (
    address_of (next_counter p.counter),
    record p { counter = next_counter p.counter },
    host,
    λ q. absurd (let z : abort m ≡ ok tt = sym e ∙ q in ground arith),
    rw (allot, e) refl,
    refl,
  )
  at_address fuel p unfinished e host again = inr (
    address_of (next_counter p.counter),
    record p { counter = next_counter p.counter },
    host,
    λ q. absurd (let z : unfinished ≡ ok tt = sym e ∙ q in ground arith),
    rw (allot, e) refl,
    refl,
  )

  allot_hit :
      (fuel k : ℕ) (p : AddressPool)
      → 1 ≤ p.counter
      → p.counter ≤ 65534
      → k < fuel
      → contains (nth_address p.counter k) p.taken ≡ false
      → Returns (allot check fuel p) p
  allot_hit zero k p l h lt e = absurd (omega arith)
  allot_hit (suc fuel) zero p l h lt e =
      at_address fuel p (check (address_of (next_counter p.counter))) refl
        (next_address-IsHost p.counter l h)
        (λ held.
          let free : contains (address_of (next_counter p.counter)) p.taken ≡ false =
            rw (next_counter-eq p.counter l h) e in
          absurd (ground (arith, held, free)))
  allot_hit (suc fuel) (suc k) p l h lt e =
      let c = next_counter p.counter in
      let f : contains (nth_address c k) p.taken ≡ false =
        rw (next_counter-eq p.counter l h, nth_counter-next p.counter k l h) e in
      let (low, high) = next_counter_bounds p.counter l h in
      at_address fuel p (check (address_of c)) refl (next_address-IsHost p.counter l h)
        (λ held. allot_hit fuel k (record p { counter = c }) low high (omega arith) f)

  -- While fewer than 65533 addresses are taken, the loop ends, whatever check of the bytes stands in the
  -- code. Either it returns an address of 10.123.0.0/16 that is neither the network's, the server's nor
  -- the broadcast one, that no session holds, and that is taken afterwards, with nothing else changed
  -- but the counter, which stays in its range; or it ends as the check does at such an address that the
  -- check does not let pass, and none is taken. The code's own check lets no address pass.
  pub allot-returns :
      (p : AddressPool)
      → IsValid p
      → length p.taken < rounds
      → ((a : ℕ) × (q : AddressPool) × (allot check rounds p ≡ some (ok a, q)) × Allots p a q)
        ⊎ ((a : ℕ) × (q : AddressPool) × IsHost a
            × (check a ≢ ok tt)
            × (allot check rounds p ≡ ended_by (check a) q)
            × (q.taken ≡ p.taken))
  allot-returns p v few =
      let (k, lt, free) = free_round p.counter rounds p.taken v.started (omega arith) few in
      elim (allot_hit rounds k p v.started v.small lt free) [
        | inl (a, q, e) ↦ inl (a, q, e, allot-Allots rounds p v.started v.small e)
        | inr stopped ↦ inr stopped
      ]

  -- When all the host addresses are taken the loop goes round for ever, whatever fuel it is given.
  allot_full :
      ((a : ℕ) → check a ≡ ok tt)
      → (fuel : ℕ) (p : AddressPool) → IsValid p
      → ((a : ℕ) → IsHost a → contains a p.taken ≡ true)
      → allot check fuel p ≡ none
  unfolding allot
  allot_full pass zero p v full = refl
  allot_full pass (suc fuel) p v full =
      let c = next_counter p.counter in
      let (low, high) = next_counter_bounds p.counter v.started v.small in
      ground (
        arith,
        pass (address_of c),
        full (address_of c) (next_address-IsHost p.counter v.started v.small),
        allot_full pass fuel (record p { counter = c })
            (record { started = low; small = high; hosts = v.hosts; distinct = v.distinct }) full,
      )

pub Allots-IsValid : {p q : AddressPool} {a : ℕ} → IsValid p → Allots p a q → IsValid q
Allots-IsValid {p} {q} {a} v m = record {
  started = m.low;
  small = m.high;
  hosts = rw (m.added) (m.host, v.hosts);
  distinct = rw (m.added) (m.fresh, v.distinct);
}
