-- ===== src/Effect/Post.antt =====
-- What a call guarantees: a condition on its value or on its exception, and no other end.
use vpverk.Effect.{Exception, Outcome, ok, throw, abort, unfinished, continue}

module _ {S A : Type 0} where
  -- The call returns a value with `P`, or throws with `E`.
  abbrev pub Post : (A → S → Type 0) → (Exception → S → Type 0) → Outcome A × S → Type 0
  Post P E (ok a, s) = P a s
  Post P E (throw e, s) = E e s
  Post P E (abort _, s) = ⊥
  Post P E (unfinished, s) = ⊥

module _ {S A B : Type 0} where
  pub continue-Post :
      (P : A → S → Type 0) (Q : B → S → Type 0) (E : Exception → S → Type 0)
      (f : A → S → Outcome B × S) (x : Outcome A × S)
      → Post P E x
      → ((a : A) (s : S) → P a s → Post Q E (f a s))
      → Post Q E (continue f x)
  continue-Post P Q E f (ok a, s) h k = k a s h
  continue-Post P Q E f (throw e, s) h k = h
  continue-Post P Q E f (abort m, s) h k = h
  continue-Post P Q E f (unfinished, s) h k = h

module _ {S A : Type 0} where
  pub Post-weaken :
      (P Q : A → S → Type 0) (E F : Exception → S → Type 0) (x : Outcome A × S)
      → Post P E x
      → ((a : A) (s : S) → P a s → Q a s)
      → ((e : Exception) (s : S) → E e s → F e s)
      → Post Q F x
  Post-weaken P Q E F (ok a, s) h k m = k a s h
  Post-weaken P Q E F (throw e, s) h k m = m e s h
  Post-weaken P Q E F (abort m, s) h k n = h
  Post-weaken P Q E F (unfinished, s) h k n = h
