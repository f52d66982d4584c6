-- ===== src/Tun/Lock/Owned.antt =====
-- Which `Lock` has a flag.
use vpverk.Base.{
  ℕ, ◌≡◌, ◌≢◌, refl, sym, ap, subst, ◌∙◌, Bool, true, false, Bool-cases, inl, inr, Option, none,
  some, List, [], ◌∷◌,
}
use vpverk.Schedule.Places.{moved, moved_here, moved_there, moved_from, unchanged}
use vpverk.Pointers.{has_no_pointer, passed_from, passed_sole, some_inj, clash, sole_after, pass_on}
use vpverk.Tun.Lock.{
  Store, Operation, makes, locks, moves, assigns, destroys, same_pointer, store_false, operate,
  operations, empty,
}

-- A flag is set if a lock has it, no two locks have it, and what does not exist has none.
pub record Owned (s : Store) : Type 0 where
  pub sole : (i j f : ℕ) → s.l i ≡ some f → s.l j ≡ some f → i ≡ j
  pub is_set : (i f : ℕ) → s.l i ≡ some f → s.flag f ≡ true
  pub gone : (i : ℕ) → s.exists i ≡ false → s.l i ≡ none

pub given_back :
    (p : Option ℕ) (flag : ℕ → Bool) (f : ℕ)
    → flag f ≡ true
    → p ≢ some f
    → store_false p flag f ≡ true
unfolding store_false
given_back none flag f e ne = e
given_back (some g) flag f e ne =
    moved_there flag g f false (λ (q : g ≡ f). ne (ap (λ (z : ℕ). some z) q)) ∙ e

free_of : (s : Store) (f : ℕ) → Owned s → s.flag f ≡ false → (k : ℕ) → s.l k ≢ some f
free_of s f h free k e = clash (sym (h.is_set k f e) ∙ free)

taken-Owned :
    (s : Store) (i f : ℕ)
    → Owned s
    → s.flag f ≡ false
    → Owned (record {
      flag = moved s.flag f true;
      exists = moved s.exists i true;
      l = moved s.l i (some f);
    })
taken-Owned s i f h free = record {
  sole = λ a b g p q. sole_after s.l i a b g f h.sole (free_of s f h free) p q;
  is_set = λ a g p. elim (moved_from s.l i (some f) a (some g) p) [
    | inl (x, u) ↦ subst (λ z. moved s.flag f true z ≡ true) (some_inj u) (moved_here s.flag f true)
    | inr (x, u) ↦ unchanged s.flag f g true true refl (h.is_set a g u)
  ];
  gone = λ a p. elim (moved_from s.exists i true a false p) [
    | inl (x, u) ↦ absurd (clash u)
    | inr (x, u) ↦ moved_there s.l i a (some f) x ∙ h.gone a u
  ];
}

passed_set : (s : Store) (i o a f : ℕ) → Owned s → pass_on i o s.l a ≡ some f → s.flag f ≡ true
passed_set s i o a f h p = elim (passed_from i o s.l a f p).1 [
  | inl (x, u) ↦ h.is_set o f u
  | inr (x, u) ↦ h.is_set a f u
]

passed_gone :
    (s : Store) (i o a : ℕ) → Owned s → i ≢ a → s.exists a ≡ false → pass_on i o s.l a ≡ none
unfolding pass_on
passed_gone s i o a h ne p =
    unchanged (moved s.l i (s.l o)) o a none none refl (moved_there s.l i a (s.l o) ne ∙ h.gone a p)

released-Owned :
    (s : Store) (i : ℕ)
    → Owned s
    → Owned (record {
      flag = store_false (s.l i) s.flag;
      exists = moved s.exists i false;
      l = moved s.l i none;
    })
released-Owned s i h =
    let kept : (a f : ℕ) → moved s.l i none a ≡ some f → (i ≢ a) × (s.l a ≡ some f) = λ a f p.
      elim (moved_from s.l i none a (some f) p) [
        | inl (x, u) ↦ absurd (has_no_pointer u)
        | inr w ↦ w
      ] in
    record {
      sole = λ a b f p q. h.sole a b f (kept a f p).1 (kept b f q).1;
      is_set = λ a f p.
          let (ne, u) = kept a f p in
          given_back (s.l i) s.flag f (h.is_set a f u) (λ e. ne (h.sole i a f e u));
      gone = λ a p. elim (moved_from s.exists i false a false p) [
        | inl (x, u) ↦ subst (λ z. moved s.l i none z ≡ none) x (moved_here s.l i none)
        | inr (x, u) ↦ unchanged s.l i a none none refl (h.gone a u)
      ];
    }

passed-Owned :
    (s : Store) (i o : ℕ) (exists : ℕ → Bool)
    → Owned s
    → ((a : ℕ) → exists a ≡ false → (i ≢ a) × (s.exists a ≡ false))
    → Owned (record s { exists = exists; l = pass_on i o s.l })
passed-Owned s i o exists h was = record {
  sole = λ a b f p q. passed_sole s.l i o a b f h.sole p q;
  is_set = λ a f p. passed_set s i o a f h p;
  gone = λ a p. passed_gone s i o a h (was a p).0 (was a p).1;
}

-- What does not exist after `i` was made did not exist before, and is not `i`.
made : (s : Store) (i a : ℕ) → moved s.exists i true a ≡ false → (i ≢ a) × (s.exists a ≡ false)
made s i a p = elim (moved_from s.exists i true a false p) [
  | inl (x, u) ↦ absurd (clash u)
  | inr w ↦ w
]

pub operate-Owned : (o : Operation) (s : Store) → Owned s → Owned (operate o s)
unfolding operate
operate-Owned (makes i) s h = elim (Bool-cases (s.exists i)) [
  | inl e ↦ rw (e) h
  | inr e ↦
      rw (e) (record { sole = h.sole; is_set = h.is_set; gone = λ a p. h.gone a (made s i a p).1 })
]
operate-Owned (locks i f) s h = elim (Bool-cases (s.exists i)) [
  | inl e ↦ rw (e) h
  | inr e ↦ elim (Bool-cases (s.flag f)) [
    | inl held ↦ rw (e, held) h
    | inr free ↦ rw (e, free) (taken-Owned s i f h free)
  ]
]
operate-Owned (moves i o) s h = elim (Bool-cases (s.exists i)) [
  | inl e ↦ rw (e) h
  | inr e ↦ elim (Bool-cases (s.exists o)) [
    | inl there ↦ rw (e, there) (passed-Owned s i o (moved s.exists i true) h (made s i))
    | inr gone ↦ rw (e, gone) h
  ]
]
operate-Owned (assigns i o) s h = elim (Bool-cases (s.exists i)) [
  | inr e ↦ rw (e) h
  | inl e ↦ elim (Bool-cases (s.exists o)) [
    | inr gone ↦ rw (e, gone) h
    | inl there ↦ elim (Bool-cases (same_pointer (s.l i) (s.l o))) [
      | inl same ↦ rw (e, there, same) h
      | inr other ↦
          rw (e, there, other)
            (passed-Owned s i o s.exists h
              (λ a p. ((λ (q : i ≡ a). clash (sym e ∙ ap s.exists q ∙ p)), p)))
    ]
  ]
]
operate-Owned (destroys i) s h = elim (Bool-cases (s.exists i)) [
  | inl e ↦ rw (e) (released-Owned s i h)
  | inr e ↦ rw (e) h
]

pub operations-Owned : (os : List Operation) (s : Store) → Owned s → Owned (operations os s)
unfolding operations
operations-Owned [] s h = h
operations-Owned (o ∷ os) s h = operations-Owned os (operate o s) (operate-Owned o s h)

pub empty-Owned : Owned empty
empty-Owned = record {
  sole = λ i j f p q. absurd (has_no_pointer p);
  is_set = λ i f p. absurd (has_no_pointer p);
  gone = λ i p. refl;
}
