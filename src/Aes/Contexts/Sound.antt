-- ===== src/Aes/Contexts/Sound.antt =====
-- Each context is freed once, by the object that owns it.
use vpverk.Base.{
  ℕ, ◌≡◌, ◌≢◌, ◌↔◌, refl, sym, ap, subst, ◌∙◌, true, false, Bool-cases, inl, inr, Option, none,
  some, List, [], ◌∷◌,
}
use vpverk.Schedule.Places.{moved, moved_here, moved_there, moved_from, unchanged}
use vpverk.Pointers.{
  pass_on, swap_pointers, has_no_pointer, some_inj, clash, sole_after, apart, passed_from,
  passed_sole, passed_keeps, swapped_from, swapped_sole, swapped_keeps,
}
use vpverk.Aes.Contexts.{
  Contexts, ContextOperation, makes, moves, assigns, destroys, allocate, free_context,
  context_operate, context_operations, no_contexts,
}

-- Each context that is allocated has one object, and each object that points points to such a one; what
-- does not exist does not point, and nothing was freed twice.
record Sound (s : Contexts) : Type 0 where
  sole : (i j c : ℕ) → s.ptr i ≡ some c → s.ptr j ≡ some c → i ≡ j
  is_live : (i c : ℕ) → s.ptr i ≡ some c → s.live c ≡ true
  gone : (i : ℕ) → s.exists i ≡ false → s.ptr i ≡ none
  kept : (c : ℕ) → s.live c ≡ true → (i : ℕ) × (s.ptr i ≡ some c)
  faultless : s.faults ≡ 0

-- What does not exist after `i` was made did not exist before, and is not `i`.
new_made :
    (s : Contexts) (i a : ℕ) → moved s.exists i true a ≡ false → (i ≢ a) × (s.exists a ≡ false)
new_made s i a p = elim (moved_from s.exists i true a false p) [
  | inl (x, u) ↦ absurd (clash u)
  | inr w ↦ w
]

allocate-Sound :
    (s : Contexts) (i : ℕ) (p : Option ℕ) → s.exists i ≡ false → Sound s → Sound (allocate i p s)
unfolding allocate
allocate-Sound s i none e h = record {
  sole = h.sole;
  is_live = h.is_live;
  gone = λ a p. h.gone a (new_made s i a p).1;
  kept = h.kept;
  faultless = h.faultless;
}
allocate-Sound s i (some c) e h = elim (Bool-cases (s.live c)) [
  | inl used ↦ rw (used) h
  | inr free ↦ rw (free) (record {
    sole = λ a b d p q.
        sole_after s.ptr i a b d c h.sole (λ k w. clash (sym (h.is_live k c w) ∙ free)) p q;
    is_live = λ a d p. elim (moved_from s.ptr i (some c) a (some d) p) [
      | inl (x, u) ↦
          subst (λ z. moved s.live c true z ≡ true) (some_inj u) (moved_here s.live c true)
      | inr (x, u) ↦ unchanged s.live c d true true refl (h.is_live a d u)
    ];
    gone = λ a p. let (ne, u) = new_made s i a p in moved_there s.ptr i a (some c) ne ∙ h.gone a u;
    kept = λ d p. elim (moved_from s.live c true d true p) [
      | inl (x, u) ↦ (i, moved_here s.ptr i (some c) ∙ ap (λ (z : ℕ). some z) x)
      | inr (x, u) ↦
          let (k, q) = h.kept d u in
          (k, moved_there s.ptr i k (some c) (apart s.ptr i k d (h.gone i e) q) ∙ q)
    ];
    faultless = h.faultless;
  })
]

passed-Sound :
    (s : Contexts) (i o : ℕ)
    → s.exists i ≡ false
    → s.exists o ≡ true
    → Sound s
    → Sound (record s { exists = moved s.exists i true; ptr = pass_on i o s.ptr })
unfolding pass_on
passed-Sound s i o e there h = record {
  sole = λ a b c p q. passed_sole s.ptr i o a b c h.sole p q;
  is_live = λ a c p. elim (passed_from i o s.ptr a c p).1 [
    | inl (x, u) ↦ h.is_live o c u
    | inr (x, u) ↦ h.is_live a c u
  ];
  gone = λ a p.
      let (ne, u) = new_made s i a p in
      unchanged (moved s.ptr i (s.ptr o)) o a none none refl
        (moved_there s.ptr i a (s.ptr o) ne ∙ h.gone a u);
  kept = λ c p.
      let (k, q) = h.kept c p in
      passed_keeps s.ptr i o k c (h.gone i e) (λ same. clash (sym there ∙ ap s.exists same ∙ e)) q;
  faultless = h.faultless;
}

swapped-Sound :
    (s : Contexts) (i o : ℕ)
    → s.exists i ≡ true
    → s.exists o ≡ true
    → Sound s
    → Sound (record s { ptr = swap_pointers i o s.ptr })
unfolding swap_pointers
swapped-Sound s i o here there h = record {
  sole = λ a b c p q. swapped_sole s.ptr i o a b c h.sole p q;
  is_live = λ a c p. elim (swapped_from i o s.ptr a c p) [
    | inl (x, u) ↦ h.is_live i c u
    | inr w ↦ elim w [ inl (x, u) ↦ h.is_live o c u | inr (x, (y, u)) ↦ h.is_live a c u ]
  ];
  gone = λ a p.
      moved_there (moved s.ptr i (s.ptr o)) o a (s.ptr i)
        (λ same. clash (sym there ∙ ap s.exists same ∙ p))
      ∙ moved_there s.ptr i a (s.ptr o) (λ same. clash (sym here ∙ ap s.exists same ∙ p))
      ∙ h.gone a p;
  kept = λ c p. let (k, q) = h.kept c p in swapped_keeps s.ptr i o k c q;
  faultless = h.faultless;
}

-- Who points after the destructor is another object, and pointed before.
still : (l : ℕ → Option ℕ) (i a c : ℕ) → moved l i none a ≡ some c → (i ≢ a) × (l a ≡ some c)
still l i a c p = elim (moved_from l i none a (some c) p) [
  | inl (x, u) ↦ absurd (has_no_pointer u)
  | inr w ↦ w
]

dropped :
    (s : Contexts) (i a : ℕ)
    → Sound s
    → moved s.exists i false a ≡ false
    → moved s.ptr i none a ≡ none
dropped s i a h p = elim (moved_from s.exists i false a false p) [
  | inl (x, u) ↦ subst (λ z. moved s.ptr i none z ≡ none) x (moved_here s.ptr i none)
  | inr (x, u) ↦ unchanged s.ptr i a none none refl (h.gone a u)
]

freed-Sound :
    (s : Contexts) (i : ℕ) (p : Option ℕ)
    → s.ptr i ≡ p
    → Sound s
    → Sound
        (record (free_context p s) { exists = moved s.exists i false; ptr = moved s.ptr i none })
unfolding free_context
freed-Sound s i none e h = record {
  sole = λ a b c p q. h.sole a b c (still s.ptr i a c p).1 (still s.ptr i b c q).1;
  is_live = λ a c p. h.is_live a c (still s.ptr i a c p).1;
  gone = λ a p. dropped s i a h p;
  kept =
      λ c p. let (k, q) = h.kept c p in (k, moved_there s.ptr i k none (apart s.ptr i k c e q) ∙ q);
  faultless = h.faultless;
}
freed-Sound s i (some c) e h = record {
  sole = λ a b d p q. h.sole a b d (still s.ptr i a d p).1 (still s.ptr i b d q).1;
  is_live = λ a d p.
      let (ne, u) = still s.ptr i a d p in
      moved_there s.live c d false (λ same. ne (h.sole i a d (e ∙ ap (λ (z : ℕ). some z) same) u))
      ∙ h.is_live a d u;
  gone = λ a p. dropped s i a h p;
  kept = λ d p. elim (moved_from s.live c false d true p) [
    | inl (x, u) ↦ absurd (clash (sym u))
    | inr (x, u) ↦
        let (k, q) = h.kept d u in
        (k, moved_there s.ptr i k none (λ same. x (some_inj (sym e ∙ ap s.ptr same ∙ q))) ∙ q)
  ];
  faultless = rw (h.is_live i c e) h.faultless;
}

context_operate-Sound :
    (o : ContextOperation) (s : Contexts) → Sound s → Sound (context_operate o s)
unfolding context_operate
context_operate-Sound (makes i p) s h = elim (Bool-cases (s.exists i)) [
  | inl e ↦ rw (e) h
  | inr e ↦ rw (e) (allocate-Sound s i p e h)
]
context_operate-Sound (moves i o) s h = elim (Bool-cases (s.exists i)) [
  | inl e ↦ rw (e) h
  | inr e ↦ elim (Bool-cases (s.exists o)) [
    | inl there ↦ rw (e, there) (passed-Sound s i o e there h)
    | inr gone ↦ rw (e, gone) h
  ]
]
context_operate-Sound (assigns i o) s h = elim (Bool-cases (s.exists i)) [
  | inr e ↦ rw (e) h
  | inl e ↦ elim (Bool-cases (s.exists o)) [
    | inl there ↦ rw (e, there) (swapped-Sound s i o e there h)
    | inr gone ↦ rw (e, gone) h
  ]
]
context_operate-Sound (destroys i) s h = elim (Bool-cases (s.exists i)) [
  | inl e ↦ rw (e) (freed-Sound s i (s.ptr i) refl h)
  | inr e ↦ rw (e) h
]

operations-Sound :
    (os : List ContextOperation) (s : Contexts) → Sound s → Sound (context_operations os s)
unfolding context_operations
operations-Sound [] s h = h
operations-Sound (o ∷ os) s h =
    operations-Sound os (context_operate o s) (context_operate-Sound o s h)

-- After any operations on the objects that own contexts, from where there are none: no context was freed
-- that was not allocated, and a context is allocated just when there is one object that points to it, and
-- no second.
pub live_iff_owned :
    (os : List ContextOperation) (c : ℕ)
    → let s = context_operations os no_contexts in
      (s.faults ≡ 0) × ((s.live c ≡ true) ↔ ((i : ℕ) × ((j : ℕ) → (s.ptr j ≡ some c) ↔ (i ≡ j))))
live_iff_owned os c =
    let s = context_operations os no_contexts in
    let h = operations-Sound os no_contexts (record {
      sole = λ i j d p q. absurd (has_no_pointer p);
      is_live = λ i d p. absurd (has_no_pointer p);
      gone = λ i p. refl;
      kept = λ d p. absurd (clash (sym p));
      faultless = refl;
    }) in
    (
      h.faultless,
      (
        λ live.
            let (i, q) = h.kept c live in
            (i, λ j. (h.sole i j c q, λ same. subst (λ k. s.ptr k ≡ some c) same q)),
        λ (i, q). h.is_live i c ((q i).1 refl),
      ),
    )
