-- ===== src/Router/Drain.antt =====
-- The first loop, and the for loop of a retry, which does the same on what was put back.
use vpverk.Base.{
  ℕ, zero, suc, ◌+◌, ◌%◌, ◌^◌, ◌<◌, ltb, true, false, ◌≤◌, ◌≡◌, refl, sym, ap, ◌∙◌, Option, none,
  some, List, [], ◌∷◌, ◌++◌, length, length-append, arith, Option-cases, inl, inr, map,
}
use mathlib.Core.List.{append_assoc, append-nil}
use vpverk.Router.{Route, Router, apply, drain, pass}
use vpverk.Router.Counts.{held, adds, removes, adds-append, removes-append, apply-held, popped}

-- The requests for an address, done and put back, make up those that were popped.
pub drain-held :
    (a : ℕ) (pops : List (Option Route)) (m : Router) (kept : List Route)
    → let (m', kept') = drain pops m kept in
      held a m' + removes a (popped pops) + removes a kept + adds a kept'
      ≡ held a m + adds a (popped pops) + adds a kept + removes a kept'
unfolding drain popped adds removes
drain-held a [] m kept = omega arith
drain-held a (none ∷ pops) m kept = drain-held a pops m kept
drain-held a (some r ∷ pops) m kept = elim (Option-cases (apply m r)) [
  | inl e ↦
      rw (e, drain)
        (omega (
          arith,
          drain-held a pops m (kept ++ r ∷ []),
          adds-append a kept (r ∷ []),
          removes-append a kept (r ∷ []),
        ))
  | inr (m', e) ↦ rw (e, drain) (omega (arith, drain-held a pops m' kept, apply-held a m r e))
]

-- The requests of `kept` cannot be carried out at `m`.
abbrev pub AllStuck : Router → List Route → Type 0
AllStuck m [] = Unit {0}
AllStuck m (r ∷ rs) = (apply m r ≡ none) × AllStuck m rs

-- A pass without its counter: the first `n` requests
unfoldable pub pass_all : ℕ → Router → List Route → Router × List Route
pass_all zero m kept = (m, kept)
pass_all (suc n) m [] = (m, [])
pass_all (suc n) m (r ∷ kept) = elim (apply m r) [
  | some m' ↦ pass_all n m' kept
  | none ↦ pass_all n m (kept ++ r ∷ [])
]

-- The counter does not wrap while there are fewer requests than it counts, and the loop ends.
pub pass_counted :
    (fuel n i size : ℕ) (m : Router) (kept : List Route)
    → i + n ≡ size
    → size < 2 ^ 32
    → n ≤ length kept
    → n < fuel
    → pass fuel i size m kept ≡ some (pass_all n m kept)
unfolding pass pass_all
pass_counted zero n i size m kept e small le f = absurd (omega arith)
pass_counted (suc fuel) zero i size m [] e small le f =
    let over : ltb i size ≡ false = ground arith in rw (pass, over) refl
pass_counted (suc fuel) zero i size m (r ∷ kept) e small le f =
    let over : ltb i size ≡ false = ground arith in rw (pass, over) refl
pass_counted (suc fuel) (suc n) i size m [] e small le f = absurd (omega arith)
pass_counted (suc fuel) (suc n) i size m (r ∷ kept) e small le f =
    let more : ltb i size ≡ true = ground arith in
    let next : ((i + 1) % 2 ^ 32) + n ≡ size = omega arith in
    elim (Option-cases (apply m r)) [
      | inl q ↦
          rw (pass, more, q, pass_all)
            (pass_counted fuel n ((i + 1) % 2 ^ 32) size m (kept ++ r ∷ []) next small
              (omega (arith, length-append kept (r ∷ []))) (omega arith))
      | inr (m', q) ↦
          rw (pass, more, q, pass_all)
            (pass_counted fuel n ((i + 1) % 2 ^ 32) size m' kept next small (omega arith)
              (omega arith))
    ]

-- A pass goes over the requests once: it is the first loop on them.
pass-eq :
    (rs : List Route) (m : Router) (kept : List Route)
    → pass_all (length rs) m (rs ++ kept) ≡ drain (map some rs) m kept
unfolding pass_all drain
pass-eq [] m kept = refl
pass-eq (r ∷ rs) m kept = elim (Option-cases (apply m r)) [
  | inl e ↦
      rw (e, pass_all, drain) (rw (append_assoc rs kept (r ∷ [])) (pass-eq rs m (kept ++ r ∷ [])))
  | inr (m', e) ↦ rw (e, pass_all, drain) (pass-eq rs m' kept)
]

pass-eq-drain :
    (m : Router) (rs : List Route) → pass_all (length rs) m rs ≡ drain (map some rs) m []
pass-eq-drain m rs = ap (pass_all (length rs) m) (sym (append-nil rs)) ∙ pass-eq rs m []

popped-some : (rs : List Route) → popped (map some rs) ≡ rs
unfolding popped
popped-some [] = refl
popped-some (r ∷ rs) = ap (◌∷◌ r) (popped-some rs)

pub length-drain-le :
    (rs : List Route) (m : Router) (kept : List Route)
    → length (drain (map some rs) m kept).1 ≤ length rs + length kept
unfolding drain
length-drain-le [] m kept = omega arith
length-drain-le (r ∷ rs) m kept = elim (Option-cases (apply m r)) [
  | inl e ↦
      rw (e, drain)
        (omega (arith, length-drain-le rs m (kept ++ r ∷ []), length-append kept (r ∷ [])))
  | inr (m', e) ↦ rw (e, drain) (omega (arith, length-drain-le rs m' kept))
]

-- If nothing was carried out, nothing has changed, and nothing can be carried out.
drain_stuck :
    (rs : List Route) (m : Router) (kept : List Route)
    → length (drain (map some rs) m kept).1 ≡ length rs + length kept
    → (drain (map some rs) m kept ≡ (m, kept ++ rs)) × AllStuck m rs
unfolding drain
drain_stuck [] m kept h = (ap (λ (k : List Route). (m, k)) (sym (append-nil kept)), tt)
drain_stuck (r ∷ rs) m kept h = elim (Option-cases (apply m r)) [
  | inl e ↦
      let h' : length (drain (map some rs) m (kept ++ r ∷ [])).1 ≡ suc (length rs) + length kept =
        rw (e, drain) at h in
      let (same, stuck) =
        drain_stuck rs m (kept ++ r ∷ []) (omega (arith, h', length-append kept (r ∷ []))) in
      rw (e, drain)
        (same ∙ ap (λ (k : List Route). (m, k)) (append_assoc kept (r ∷ []) rs), (refl, stuck))
  | inr (m', e) ↦
      let h' : length (drain (map some rs) m' kept).1 ≡ suc (length rs) + length kept =
        rw (e, drain) at h in
      absurd (omega (arith, h', length-drain-le rs m' kept))
]

-- A pass over all that was put back keeps the balance at each address.
pub pass-held :
    (a : ℕ) (m : Router) (kept : List Route)
    → let (m', kept') = pass_all (length kept) m kept in
      held a m' + removes a kept + adds a kept' ≡ held a m + adds a kept + removes a kept'
unfolding adds removes
pass-held a m kept = rw (pass-eq-drain m kept) (
    omega (
      arith,
      drain-held a (map some kept) m [],
      ap (adds a) (popped-some kept),
      ap (removes a) (popped-some kept),
    ))

pub length-pass-le :
    (m : Router) (kept : List Route) → length (pass_all (length kept) m kept).1 ≤ length kept
length-pass-le m kept = rw (pass-eq-drain m kept) (omega (arith, length-drain-le kept m []))

pub pass_stuck :
    (m : Router) (kept : List Route)
    → length (pass_all (length kept) m kept).1 ≡ length kept
    → (pass_all (length kept) m kept ≡ (m, kept)) × AllStuck m kept
pass_stuck m kept h =
    let h' : length (drain (map some kept) m []).1 ≡ length kept + 0 =
      ap (λ (x : Router × List Route). length x.1) (sym (pass-eq-drain m kept))
      ∙ h
      ∙ (let z : length kept ≡ length kept + 0 = omega arith in z) in
    let (same, stuck) = drain_stuck kept m [] h' in (pass-eq-drain m kept ∙ same, stuck)

-- A pop that fails changes nothing.
pub drain-popped :
    (pops : List (Option Route)) (m : Router) (kept : List Route)
    → drain pops m kept ≡ drain (map some (popped pops)) m kept
unfolding drain popped
drain-popped [] m kept = refl
drain-popped (none ∷ pops) m kept = drain-popped pops m kept
drain-popped (some r ∷ pops) m kept = elim (Option-cases (apply m r)) [
  | inl e ↦ rw (e, drain) (drain-popped pops m (kept ++ r ∷ []))
  | inr (m', e) ↦ rw (e, drain) (drain-popped pops m' kept)
]
