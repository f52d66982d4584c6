-- ===== src/Sessions/Apart.antt =====
-- The addresses of the sessions, when one of them takes one or gives it back.
use vpverk.Base.{
  ℕ, ◌≡◌, ◌≢◌, refl, sym, ap, subst, ◌∙◌, true, Option, none, some, List, contains,
  contains-without_ne, without,
}
use native.Mathlib.Decide.{ℕ_discrete}
use vpverk.Sessions.{Stage, outside, holds, routed, unrouted}
use vpverk.Schedule.Places.{moved, moved_here, moved_there, moved_alike}

-- The address that a session has.
unfoldable pub address : Stage → Option ℕ
address outside = none
address (holds a) = some a
address (routed a v) = some a
address (unrouted a) = some a

-- No two sessions have one address, and those they have are taken.
pub record Apart (f : ℕ → Stage) (taken : List ℕ) : Type 0 where
  pub held : (i a : ℕ) → address (f i) ≡ some a → contains a taken ≡ true
  pub one : (i j a : ℕ) → address (f i) ≡ some a → address (f j) ≡ some a → i ≡ j

some_eq : (a b : ℕ) → Path (Option ℕ) (some a) (some b) → a ≡ b
some_eq a b e = cc

pub Apart-more :
    (f : ℕ → Stage) (taken taken' : List ℕ)
    → ((b : ℕ) → contains b taken ≡ true → contains b taken' ≡ true)
    → Apart f taken
    → Apart f taken'
Apart-more f taken taken' more s = record { held = λ i a q. more a (s.held i a q); one = s.one }

module _ (f : ℕ → Stage) (i : ℕ) (h : Stage) where
  pub Apart-alike :
      (taken : List ℕ) → address h ≡ address (f i) → Apart f taken → Apart (moved f i h) taken
  Apart-alike taken e s = record {
    held = λ j a q. s.held j a (sym (moved_alike address f i j h e) ∙ q);
    one = λ j k a q r.
        s.one j k a (sym (moved_alike address f i j h e) ∙ q)
          (sym (moved_alike address f i k h e) ∙ r);
  }

  here : (b : Option ℕ) → address h ≡ b → address (moved f i h i) ≡ b
  here b e = ap address (moved_here f i h) ∙ e

  there : (j : ℕ) → i ≢ j → address (moved f i h j) ≡ address (f j)
  there j ne = ap address (moved_there f i j h ne)

  -- The session takes an address that was free.
  pub Apart-takes :
      (a : ℕ) (taken taken' : List ℕ)
      → address h ≡ some a
      → contains a taken' ≡ true
      → ((b : ℕ) → contains b taken ≡ true → (contains b taken' ≡ true) × (b ≢ a))
      → Apart f taken
      → Apart (moved f i h) taken'
  Apart-takes a taken taken' e t keep s = record { held = held; one = one }
    where
      held : (j b : ℕ) → address (moved f i h j) ≡ some b → contains b taken' ≡ true
      held j b q = elim (ℕ_discrete i j) [
        | yes same ↦
            let q' : address (moved f i h i) ≡ some b =
              subst (λ k. address (moved f i h k) ≡ some b) (sym same) q in
            subst (λ c. contains c taken' ≡ true) (some_eq a b (sym (here (some a) e) ∙ q')) t
        | no ne ↦ (keep b (s.held j b (sym (there j ne) ∙ q))).0
      ]

      other : (j : ℕ) → i ≢ j → address (moved f i h j) ≡ some a → ⊥
      other j ne q = (keep a (s.held j a (sym (there j ne) ∙ q))).1 refl

      at_i : (j b : ℕ) → address (moved f i h i) ≡ some b → address (moved f i h j) ≡ some b → i ≡ j
      at_i j b q r = elim (ℕ_discrete i j) [
        | yes same ↦ same
        | no ne ↦ absurd (other j ne (r ∙ ap some (sym (some_eq a b (sym (here (some a) e) ∙ q)))))
      ]

      one :
          (j k b : ℕ) → address (moved f i h j) ≡ some b → address (moved f i h k) ≡ some b → j ≡ k
      one j k b q r = elim (ℕ_discrete i j) [
        | yes same ↦
            sym same ∙ at_i k b (subst (λ n. address (moved f i h n) ≡ some b) (sym same) q) r
        | no ne ↦ elim (ℕ_discrete i k) [
          | yes same ↦
              sym (at_i j b (subst (λ n. address (moved f i h n) ≡ some b) (sym same) r) q) ∙ same
          | no no_k ↦ s.one j k b (sym (there j ne) ∙ q) (sym (there k no_k) ∙ r)
        ]
      ]

  -- The session gives its address back.
  pub Apart-releases :
      (a : ℕ) (taken : List ℕ)
      → address h ≡ none
      → address (f i) ≡ some a
      → Apart f taken
      → Apart (moved f i h) (without a taken)
  Apart-releases a taken e g s = record { held = held; one = one }
    where
      gone : (j b : ℕ) → address (moved f i h j) ≡ some b → i ≢ j
      gone j b q same =
          let q' = subst (λ k. address (moved f i h k) ≡ some b) (sym same) q in
          clash (sym (here none e) ∙ q')
        where
          clash : Path (Option ℕ) none (some b) → ⊥
          clash k = cc

      before : (j b : ℕ) → address (moved f i h j) ≡ some b → address (f j) ≡ some b
      before j b q = sym (there j (gone j b q)) ∙ q

      held : (j b : ℕ) → address (moved f i h j) ≡ some b → contains b (without a taken) ≡ true
      held j b q =
          contains-without_ne a b taken
            (λ same. gone j b q (s.one i j b (g ∙ ap some same) (before j b q)))
          ∙ s.held j b (before j b q)

      one :
          (j k b : ℕ) → address (moved f i h j) ≡ some b → address (moved f i h k) ≡ some b → j ≡ k
      one j k b q r = s.one j k b (before j b q) (before k b r)
