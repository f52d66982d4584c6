-- ===== src/Address/Gives.antt =====
-- What `getNewAddress` and a release (src/server/contexts/sessionscontrol.cpp) do to an address that is taken.
use vpverk.Base.{
  ℕ, zero, suc, ◌≡◌, ◌≢◌, sym, ap, ◌∙◌, String, true, false, Option, none, some, List, ◌∷◌,
  if◌then◌else◌, contains, contains-without_ne, arith, Bool-cases, inl, inr,
}
use vpverk.Effect.{Exception, Outcome, ok, throw, abort, unfinished}
use vpverk.Address.{AddressPool, allot, release, next_counter, address_of}

-- An address that is given was free, and one that was taken stays taken.
pub record Gives (b : ℕ) (r : Outcome ℕ × AddressPool) : Type 0 where
  pub stays : contains b r.1.taken ≡ true
  pub other : (a : ℕ) → r.0 ≡ ok a → b ≢ a

-- What `allot` comes to, if anything.
abbrev pub GivesIf : ℕ → Option (Outcome ℕ × AddressPool) → Type 0
GivesIf b none = Unit {0}
GivesIf b (some r) = Gives b r

contains_more : (b a : ℕ) (xs : List ℕ) → contains b xs ≡ true → contains b (a ∷ xs) ≡ true
unfolding contains
contains_more b a xs h = ground arith

taken_other : (a b : ℕ) (xs : List ℕ) → contains b xs ≡ true → contains a xs ≡ false → b ≢ a
taken_other a b xs h k = λ e.
    absurd
      (let f : contains a xs ≡ true = ap (λ c. contains c xs) (sym e) ∙ h in ground (arith, f, k))

same_ok : (a c : ℕ) → Path (Outcome ℕ) (ok a) (ok c) → a ≡ c
same_ok a c e = cc

clash : (e : Exception) (a : ℕ) → Path (Outcome ℕ) (throw e) (ok a) → ⊥
clash e a k = cc

no_abort : (m : String) (a : ℕ) → Path (Outcome ℕ) (abort m) (ok a) → ⊥
no_abort m a k = cc

pub allot-Gives :
    (check : ℕ → Outcome (Unit {0})) (b fuel : ℕ) (p : AddressPool)
    → contains b p.taken ≡ true
    → GivesIf b (allot check fuel p)
unfolding allot
allot-Gives check b zero p h = tt
allot-Gives check b (suc fuel) p h =
    go (check (address_of (next_counter p.counter)))
      (allot-Gives check b fuel (record p { counter = next_counter p.counter }) h)
  where
    q : AddressPool
    q = record p { counter = next_counter p.counter }

    go :
        (x : Outcome (Unit {0}))
        → GivesIf b (allot check fuel q)
        → GivesIf b (elim x [
          | ok _ ↦
              if contains (address_of (next_counter p.counter)) p.taken
              then allot check fuel q
              else some (
                ok (address_of (next_counter p.counter)),
                record q { taken = address_of (next_counter p.counter) ∷ p.taken },
              )
          | throw e ↦ some (throw e, q)
          | abort m ↦ some (abort m, q)
          | unfinished ↦ none
        ])
    go (ok u) again = elim (Bool-cases (contains (address_of (next_counter p.counter)) p.taken)) [
      | inl there ↦ rw there again
      | inr free ↦ rw free (record {
        stays = contains_more b (address_of (next_counter p.counter)) p.taken h;
        other = λ a e.
            taken_other a b p.taken h (ap (λ c. contains c p.taken) (sym (same_ok _ a e)) ∙ free);
      })
    ]
    go (throw e) again = record { stays = h; other = λ a k. absurd (clash e a k) }
    go (abort m) again = record { stays = h; other = λ a k. absurd (no_abort m a k) }
    go unfinished again = tt

-- The address that is given is taken.
pub allot_takes :
    (check : ℕ → Outcome (Unit {0})) (fuel : ℕ) (p : AddressPool) {a : ℕ} {q : AddressPool}
    → allot check fuel p ≡ some (ok a, q)
    → contains a q.taken ≡ true
unfolding allot contains
allot_takes check zero p e = absurd (ground arith)
allot_takes check (suc fuel) p {a} {q} e =
    ground (
      arith,
      allot_takes check fuel (record p { counter = next_counter p.counter }) {a = a} {q = q},
    )

pub release-keeps :
    (a b : ℕ) (p : AddressPool)
    → b ≢ a
    → contains b p.taken ≡ true
    → contains b (release a p).taken ≡ true
unfolding release
release-keeps a b p h e = contains-without_ne a b p.taken (λ k. h (sym k)) ∙ e
