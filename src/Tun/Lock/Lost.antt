-- ===== src/Tun/Lock/Lost.antt =====
-- A lock that is assigned to while it has a flag.
use vpverk.Base.{
  ℕ, ◌≡◌, ◌≢◌, refl, sym, ap, ◌∙◌, true, false, Bool-cases, inl, inr, Option, none, some, List, [],
  ◌∷◌,
}
use vpverk.Tun.Lock.{
  Store, Operation, makes, locks, moves, assigns, destroys, same_pointer, operate, operations,
  empty,
}
use vpverk.Schedule.Places.{moved_from, unchanged}
use vpverk.Pointers.{pass_on, passed_from, has_no_pointer, clash, some_inj}
use vpverk.Tun.Lock.Owned.{given_back, operations-Owned, empty-Owned}
use vpverk.Tun.Lock.Kept.{same_pointer_refl}

-- The flag is set and no lock has it.
abbrev Lost : ℕ → Store → Type 0
Lost f s = (s.flag f ≡ true) × ((k : ℕ) → s.l k ≢ some f)

passed-Lost :
    (l : ℕ → Option ℕ) (i o f : ℕ) → ((k : ℕ) → l k ≢ some f) → (k : ℕ) → pass_on i o l k ≢ some f
passed-Lost l i o f h k e = elim (passed_from i o l k f e).1 [
  | inl (x, u) ↦ h o u
  | inr (x, u) ↦ h k u
]

operate-Lost : (o : Operation) (f : ℕ) (s : Store) → Lost f s → Lost f (operate o s)
unfolding operate
operate-Lost (makes i) f s h = elim (Bool-cases (s.exists i)) [
  | inl e ↦ rw (e) h
  | inr e ↦ rw (e) h
]
operate-Lost (locks i g) f s (set, h) = elim (Bool-cases (s.exists i)) [
  | inl e ↦ rw (e) (set, h)
  | inr e ↦ elim (Bool-cases (s.flag g)) [
    | inl held ↦ rw (e, held) (set, h)
    | inr free ↦
        rw (e, free)
          (
            unchanged s.flag g f true true refl set,
            λ k q. elim (moved_from s.l i (some g) k (some f) q) [
              | inl (x, u) ↦ clash (sym set ∙ ap s.flag (sym (some_inj u)) ∙ free)
              | inr (x, u) ↦ h k u
            ],
          )
  ]
]
operate-Lost (moves i o) f s (set, h) = elim (Bool-cases (s.exists i)) [
  | inl e ↦ rw (e) (set, h)
  | inr e ↦ elim (Bool-cases (s.exists o)) [
    | inl there ↦ rw (e, there) (set, passed-Lost s.l i o f h)
    | inr gone ↦ rw (e, gone) (set, h)
  ]
]
operate-Lost (assigns i o) f s (set, h) = elim (Bool-cases (s.exists i)) [
  | inr e ↦ rw (e) (set, h)
  | inl e ↦ elim (Bool-cases (s.exists o)) [
    | inr gone ↦ rw (e, gone) (set, h)
    | inl there ↦ elim (Bool-cases (same_pointer (s.l i) (s.l o))) [
      | inl same ↦ rw (e, there, same) (set, h)
      | inr other ↦ rw (e, there, other) (set, passed-Lost s.l i o f h)
    ]
  ]
]
operate-Lost (destroys i) f s (set, h) = elim (Bool-cases (s.exists i)) [
  | inr e ↦ rw (e) (set, h)
  | inl e ↦ rw (e) (
    given_back (s.l i) s.flag f set (h i),
    λ k q. elim (moved_from s.l i none k (some f) q) [
      | inl (x, u) ↦ has_no_pointer u
      | inr (x, u) ↦ h k u
    ],
  )
]

operations-Lost : (os : List Operation) (f : ℕ) (s : Store) → Lost f s → Lost f (operations os s)
unfolding operations
operations-Lost [] f s h = h
operations-Lost (o ∷ os) f s h = operations-Lost os f (operate o s) (operate-Lost o f s h)

-- From wherever operations have led: if `i` has the flag `f` and is assigned the value of a lock with
-- another pointer, then `f` stays set whatever operations follow, and no lock has it, so that nothing
-- gives it back.
assigned-Lost :
    (os later : List Operation) (i o f : ℕ)
    → (operations os empty).exists i ≡ true
    → (operations os empty).exists o ≡ true
    → (operations os empty).l i ≡ some f
    → same_pointer ((operations os empty).l i) ((operations os empty).l o) ≡ false
    → let t = operations later (operate (assigns i o) (operations os empty)) in
      (t.flag f ≡ true) × ((k : ℕ) → t.l k ≢ some f)
unfolding operate
assigned-Lost os later i o f here there has other =
    let s = operations os empty in
    let own = operations-Owned os empty empty-Owned in
    operations-Lost later f (operate (assigns i o) s) (
      rw (here, there, other)
        (
          own.is_set i f has,
          λ k q. elim (passed_from i o s.l k f q).1 [
            | inl (x, u) ↦
                clash (
                  sym (same_pointer_refl (s.l i)) ∙ ap (same_pointer (s.l i)) (has ∙ sym u) ∙ other)
            | inr (x, u) ↦ x (own.sole i k f has u)
          ],
        ))
