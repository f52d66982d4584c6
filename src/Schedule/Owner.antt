-- ===== src/Schedule/Owner.antt =====
-- A flag that coroutines take and give back has one owner at a time.
use vpverk.Base.{
  ℕ, ◌≡◌, refl, Bool, true, false, List, [], ◌∷◌, ◌∙◌, sym, ap, ◌≢◌, inl, inr, Bool-cases,
}
use mathlib.Core.Logic.{if_pos, if_neg}
use native.Mathlib.Decide.{ℕ_discrete}
use vpverk.Schedule.{System, step, run}

true-ne-false : true ≢ false
true-ne-false e = cc

module _ {Act Place Shared : Type 0} (next : Act → Place → Shared → Place × Shared) where
  -- What one operation of a coroutine at `h` does to a lock, `holds` and `flag` being those of it.
  pub record Local (holds : Place → Bool) (flag : Shared → Bool) : Type 0 where
    pub takes_free :
        (a : Act) (h : Place) (l : Shared)
        → holds h ≡ false
        → holds (next a h l).0 ≡ true
        → flag l ≡ false
    pub sets :
        (a : Act) (h : Place) (l : Shared)
        → (holds h ≡ true → flag l ≡ true)
        → holds (next a h l).0 ≡ true
        → flag (next a h l).1 ≡ true
    pub clears_own :
        (a : Act) (h : Place) (l : Shared)
        → flag l ≡ true
        → flag (next a h l).1 ≡ false
        → holds h ≡ true
    pub has_taken :
        (a : Act) (h : Place) (l : Shared)
        → flag (next a h l).1 ≡ true
        → holds (next a h l).0 ≡ false
        → (flag l ≡ true) × (holds h ≡ false)

  -- At most one coroutine holds the lock, and its flag is set just while one does.
  pub record Inv (holds : Place → Bool) (flag : Shared → Bool) (s : System Place Shared)
      : Type 0 where
    pub unique : (i j : ℕ) → holds (s.place i) ≡ true → holds (s.place j) ≡ true → i ≡ j
    pub held_set : (i : ℕ) → holds (s.place i) ≡ true → flag s.shared ≡ true
    pub set_held : flag s.shared ≡ true → (i : ℕ) × (holds (s.place i) ≡ true)

  module _ {holds : Place → Bool} {flag : Shared → Bool} (law : Local holds flag) where
    -- A coroutine that holds the lock after its step is the only one.
    meets :
        (s : System Place Shared) (i j : ℕ) (a : Act)
        → Inv holds flag s
        → holds (next a (s.place i) s.shared).0 ≡ true
        → holds (s.place j) ≡ true
        → i ≡ j
    meets s i j a v p q = elim (Bool-cases (holds (s.place i))) [
      | inl own ↦ v.unique i j own q
      | inr none ↦
          absurd
            (true-ne-false (sym (v.held_set j q) ∙ law.takes_free a (s.place i) s.shared none p))
    ]

    flag_stays :
        (s : System Place Shared) (i j : ℕ) (a : Act)
        → Inv holds flag s
        → i ≢ j
        → holds (s.place j) ≡ true
        → flag (next a (s.place i) s.shared).1 ≡ true
    flag_stays s i j a v ne q = elim (Bool-cases (flag (next a (s.place i) s.shared).1)) [
      | inl kept ↦ kept
      | inr gone ↦
          absurd (ne (v.unique i j (law.clears_own a (s.place i) s.shared (v.held_set j q) gone) q))
    ]

    step-Inv :
        (s : System Place Shared) (i : ℕ) (a : Act)
        → Inv holds flag s
        → Inv holds flag (step next s (i, a))
    unfolding step
    step-Inv s i a v = record {
      unique = λ j k p q. elim (ℕ_discrete i j) [
        | yes ij ↦ elim (ℕ_discrete i k) [
          | yes ik ↦ sym ij ∙ ik
          | no nk ↦ sym ij ∙ meets s i k a v (rw (if_pos _ ij) at p) (rw (if_neg _ nk) at q)
        ]
        | no nj ↦ elim (ℕ_discrete i k) [
          | yes ik ↦ sym (meets s i j a v (rw (if_pos _ ik) at q) (rw (if_neg _ nj) at p)) ∙ ik
          | no nk ↦ v.unique j k (rw (if_neg _ nj) at p) (rw (if_neg _ nk) at q)
        ]
      ];
      held_set = λ j p. elim (ℕ_discrete i j) [
        | yes ij ↦ law.sets a (s.place i) s.shared (v.held_set i) (rw (if_pos _ ij) at p)
        | no nj ↦ flag_stays s i j a v nj (rw (if_neg _ nj) at p)
      ];
      set_held = λ p. elim (Bool-cases (holds (next a (s.place i) s.shared).0)) [
        | inl now ↦ (i, rw (if_pos _ (let e : i ≡ i = refl in e)) now)
        | inr never ↦
            let (before, free) = law.has_taken a (s.place i) s.shared p never in
            let (k, h) = v.set_held before in
            let other : i ≢ k =
              λ e. true-ne-false (sym h ∙ ap (λ (n : ℕ). holds (s.place n)) (sym e) ∙ free) in
            (k, rw (if_neg _ other) h)
      ];
    }

    pub run-Inv :
        (s : System Place Shared) (xs : List (ℕ × Act))
        → Inv holds flag s
        → Inv holds flag (run next s xs)
    unfolding run
    run-Inv s [] v = v
    run-Inv s ((i, a) ∷ xs) v = run-Inv (step next s (i, a)) xs (step-Inv s i a v)

  -- A flag that only the owner of another one, held by `outer`, changes.
  pub record Nested (outer holds : Place → Bool) (flag : Shared → Bool) : Type 0 where
    pub inside : (h : Place) → holds h ≡ true → outer h ≡ true
    pub sets_own :
        (a : Act) (h : Place) (l : Shared)
        → (holds h ≡ true → flag l ≡ true)
        → holds (next a h l).0 ≡ true
        → flag (next a h l).1 ≡ true
    pub clears_inside :
        (a : Act) (h : Place) (l : Shared)
        → flag l ≡ true
        → flag (next a h l).1 ≡ false
        → outer h ≡ true
    pub has_set :
        (a : Act) (h : Place) (l : Shared)
        → flag (next a h l).1 ≡ true
        → holds (next a h l).0 ≡ false
        → (flag l ≡ true) × (holds h ≡ false)

  pub record Kept (holds : Place → Bool) (flag : Shared → Bool) (s : System Place Shared)
      : Type 0 where
    pub owner_set : (i : ℕ) → holds (s.place i) ≡ true → flag s.shared ≡ true
    pub set_owner : flag s.shared ≡ true → (i : ℕ) × (holds (s.place i) ≡ true)

  module _ {outer holds : Place → Bool} {lock flag : Shared → Bool} (outer_law : Local outer lock)
      (law : Nested outer holds flag) where
    stays_set :
        (s : System Place Shared) (i j : ℕ) (a : Act)
        → Inv outer lock s
        → Kept holds flag s
        → i ≢ j
        → holds (s.place j) ≡ true
        → flag (next a (s.place i) s.shared).1 ≡ true
    stays_set s i j a v w ne q = elim (Bool-cases (flag (next a (s.place i) s.shared).1)) [
      | inl kept ↦ kept
      | inr gone ↦ absurd (
          ne (
            v.unique i j (law.clears_inside a (s.place i) s.shared (w.owner_set j q) gone)
              (law.inside (s.place j) q)))
    ]

    step-Kept :
        (s : System Place Shared) (i : ℕ) (a : Act)
        → Inv outer lock s
        → Kept holds flag s
        → Kept holds flag (step next s (i, a))
    unfolding step
    step-Kept s i a v w = record {
      owner_set = λ j p. elim (ℕ_discrete i j) [
        | yes ij ↦ law.sets_own a (s.place i) s.shared (w.owner_set i) (rw (if_pos _ ij) at p)
        | no nj ↦ stays_set s i j a v w nj (rw (if_neg _ nj) at p)
      ];
      set_owner = λ p. elim (Bool-cases (holds (next a (s.place i) s.shared).0)) [
        | inl now ↦ (i, rw (if_pos _ (let e : i ≡ i = refl in e)) now)
        | inr never ↦
            let (before, free) = law.has_set a (s.place i) s.shared p never in
            let (k, h) = w.set_owner before in
            let other : i ≢ k =
              λ e. true-ne-false (sym h ∙ ap (λ (n : ℕ). holds (s.place n)) (sym e) ∙ free) in
            (k, rw (if_neg _ other) h)
      ];
    }

    pub run-Kept :
        (s : System Place Shared) (xs : List (ℕ × Act))
        → Inv outer lock s
        → Kept holds flag s
        → Kept holds flag (run next s xs)
    unfolding run
    run-Kept s [] v w = w
    run-Kept s ((i, a) ∷ xs) v w =
        run-Kept (step next s (i, a)) xs (step-Inv outer_law s i a v) (step-Kept s i a v w)
