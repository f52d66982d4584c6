-- ===== src/Tun/Lock/Kept.antt =====
-- That a flag which is set is given back, or never is.
use vpverk.Base.{
  ℕ, ◌≡◌, ◌≢◌, refl, sym, ap, subst, ◌∙◌, arith, ◌↔◌, Bool, true, false, not, Bool-cases, inl, inr,
  Option, none, some, List, [], ◌∷◌, if◌then◌else◌, ==_iff,
}
use vpverk.Schedule.Places.{moved, moved_here, moved_there, moved_from}
use vpverk.Pointers.{apart, passed_keeps, has_no_pointer, clash}
use vpverk.Tun.Lock.{
  Store, Operation, makes, locks, moves, assigns, destroys, same_pointer, store_false, operate,
  operations, empty,
}
use vpverk.Tun.Lock.Owned.{Owned, operate-Owned, empty-Owned, operations-Owned}

-- The assignment to a lock that has a flag, of a lock with another pointer.
unfoldable pub loses : Operation → Store → Bool
loses (assigns i o) s =
    if s.exists i
    then if s.exists o
      then if same_pointer (s.l i) (s.l o) then false else not (same_pointer (s.l i) none)
      else false
    else false
loses _ s = false

unfoldable pub nothing_lost : List Operation → Store → Bool
nothing_lost [] s = true
nothing_lost (o ∷ os) s =
    let rest = nothing_lost os (operate o s) in if loses o s then false else rest

-- Each flag that is set is had by a lock.
abbrev Kept : Store → Type 0
Kept s = (f : ℕ) → s.flag f ≡ true → (i : ℕ) × (s.l i ≡ some f)

pub same_pointer_refl : (p : Option ℕ) → same_pointer p p ≡ true
unfolding same_pointer
same_pointer_refl none = refl
same_pointer_refl (some a) = (==_iff a a).1 refl

null : (p : Option ℕ) → same_pointer p none ≡ true → p ≡ none
unfolding same_pointer
null none e = refl
null (some a) e = absurd (clash (sym e))

taken-Kept :
    (s : Store) (i f : ℕ)
    → s.l i ≡ none
    → Kept s
    → (g : ℕ) → moved s.flag f true g ≡ true
    → (k : ℕ) × (moved s.l i (some f) k ≡ some g)
taken-Kept s i f e h g p = elim (moved_from s.flag f true g true p) [
  | inl (x, u) ↦ (i, moved_here s.l i (some f) ∙ ap (λ (z : ℕ). some z) x)
  | inr (x, u) ↦ let (k, q) = h g u in (k, moved_there s.l i k (some f) (apart s.l i k g e q) ∙ q)
]

-- A flag that is set after a destructor is another than the one given back.
still_set :
    (p : Option ℕ) (flag : ℕ → Bool) (f : ℕ)
    → store_false p flag f ≡ true
    → (p ≢ some f) × (flag f ≡ true)
unfolding store_false
still_set none flag f e = (has_no_pointer, e)
still_set (some g) flag f e = elim (moved_from flag g false f true e) [
  | inl (x, u) ↦ absurd (clash (sym u))
  | inr (ne, u) ↦ ((λ q. ne cc), u)
]

released-Kept :
    (s : Store) (i f : ℕ)
    → Kept s
    → store_false (s.l i) s.flag f ≡ true
    → (k : ℕ) × (moved s.l i none k ≡ some f)
released-Kept s i f h e =
    let (ne, u) = still_set (s.l i) s.flag f e in
    let (k, q) = h f u in (k, moved_there s.l i k none (λ same. ne (ap s.l same ∙ q)) ∙ q)

safe_null :
    (s : Store) (i o : ℕ)
    → s.exists i ≡ true
    → s.exists o ≡ true
    → same_pointer (s.l i) (s.l o) ≡ false
    → loses (assigns i o) s ≡ false
    → same_pointer (s.l i) none ≡ true
unfolding loses
safe_null s i o e there other safe = ground arith

operate-Kept :
    (o : Operation) (s : Store) → Owned s → loses o s ≡ false → Kept s → Kept (operate o s)
unfolding operate loses
operate-Kept (makes i) s own safe h = elim (Bool-cases (s.exists i)) [
  | inl e ↦ rw (e) h
  | inr e ↦ rw (e) h
]
operate-Kept (locks i f) s own safe h = elim (Bool-cases (s.exists i)) [
  | inl e ↦ rw (e) h
  | inr e ↦ elim (Bool-cases (s.flag f)) [
    | inl held ↦ rw (e, held) h
    | inr free ↦ rw (e, free) (taken-Kept s i f (own.gone i e) h)
  ]
]
operate-Kept (moves i o) s own safe h = elim (Bool-cases (s.exists i)) [
  | inl e ↦ rw (e) h
  | inr e ↦ elim (Bool-cases (s.exists o)) [
    | inl there ↦
        rw (e, there)
          (λ f p.
            let (k, q) = h f p in
            passed_keeps s.l i o k f (own.gone i e)
              (λ same. clash (sym there ∙ ap s.exists same ∙ e)) q)
    | inr gone ↦ rw (e, gone) h
  ]
]
operate-Kept (assigns i o) s own safe h = elim (Bool-cases (s.exists i)) [
  | inr e ↦ rw (e) h
  | inl e ↦ elim (Bool-cases (s.exists o)) [
    | inr gone ↦ rw (e, gone) h
    | inl there ↦ elim (Bool-cases (same_pointer (s.l i) (s.l o))) [
      | inl same ↦ rw (e, there, same) h
      | inr other ↦
          let e0 : s.l i ≡ none = null (s.l i) (safe_null s i o e there other safe) in
          rw (e, there, other)
            (λ f p.
              let (k, q) = h f p in
              passed_keeps s.l i o k f e0
                (λ same. clash (
                  sym (same_pointer_refl (s.l i))
                  ∙ ap (λ z. same_pointer (s.l i) (s.l z)) (sym same)
                  ∙ other))
                q)
    ]
  ]
]
operate-Kept (destroys i) s own safe h = elim (Bool-cases (s.exists i)) [
  | inl e ↦ rw (e) (λ f p. released-Kept s i f h p)
  | inr e ↦ rw (e) h
]

operations-Kept :
    (os : List Operation) (s : Store)
    → Owned s
    → nothing_lost os s ≡ true
    → Kept s
    → Kept (operations os s)
unfolding operations nothing_lost
operations-Kept [] s own safe h = h
operations-Kept (o ∷ os) s own safe h = elim (Bool-cases (loses o s)) [
  | inl e ↦ absurd (
      clash (sym (subst (λ z. (if z then false else nothing_lost os (operate o s)) ≡ true) e safe)))
  | inr e ↦
      operations-Kept os (operate o s) (operate-Owned o s own)
        (subst (λ z. (if z then false else nothing_lost os (operate o s)) ≡ true) e safe)
        (operate-Kept o s own e h)
]

-- After any operations from where no lock exists, none of which assigns to a lock that has a flag the
-- value of another: a flag is set just when there is one lock that has it, and no second.
pub set_iff_held :
    (os : List Operation) (f : ℕ)
    → nothing_lost os empty ≡ true
    → let s = operations os empty in
      (s.flag f ≡ true) ↔ ((i : ℕ) × ((j : ℕ) → (s.l j ≡ some f) ↔ (i ≡ j)))
set_iff_held os f safe =
    let s = operations os empty in
    let own = operations-Owned os empty empty-Owned in
    let kept = operations-Kept os empty empty-Owned safe (λ g e. absurd (clash (sym e))) in
    (
      λ set.
          let (i, q) = kept f set in
          (i, λ j. (own.sole i j f q, λ same. subst (λ k. s.l k ≡ some f) same q)),
      λ (i, q). own.is_set i f ((q i).1 refl),
    )
