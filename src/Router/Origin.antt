-- ===== src/Router/Origin.antt =====
-- Where the entries of the router come from: packets for an address go to a connection that
-- asked for it.
use vpverk.Base.{
  ℕ, zero, suc, ◌+◌, ◌%◌, ◌^◌, ltb, Bool-cases, ◌≡◌, refl, subst, Bool, true, false, Option, none,
  some, List, [], ◌∷◌, ◌++◌, ◌==◌, if◌then◌else◌, length, arith, Option-cases, inl, inr, ◌⊎◌,
}
use vpverk.Router.{
  Peer, Route, Router, lookup, erase, apply, drain, pass, retry, settle, empty_queue,
}
use vpverk.Router.Counts.{popped}

lookup-erase : (a b : ℕ) (m : Router) → lookup b (erase a m) ≡ (if a == b then none else lookup b m)
unfolding lookup erase
lookup-erase a b [] = ground arith
lookup-erase a b ((c, v) ∷ m) = ground (arith, lookup-erase a b m)

module _ (Good : ℕ → Peer → Type 0) where
  abbrev pub Owned : Router → Type 0
  Owned m = (a : ℕ) (v : Peer) → lookup a m ≡ some v → Good a v

  -- Every addition among the requests is good.
  abbrev AllGood : List Route → Type 0
  AllGood [] = Unit {0}
  AllGood (r ∷ rs) = (r.add_or_remove ≡ true → Good r.addr r.peer) × AllGood rs

  AllGood-append : (xs ys : List Route) → AllGood xs → AllGood ys → AllGood (xs ++ ys)
  AllGood-append [] ys hx hy = hy
  AllGood-append (x ∷ xs) ys hx hy = (hx.0, AllGood-append xs ys hx.1 hy)

  apply-Owned :
      (m : Router) (r : Route) {m' : Router}
      → (r.add_or_remove ≡ true → Good r.addr r.peer)
      → Owned m
      → apply m r ≡ some m'
      → Owned m'
  unfolding apply lookup
  apply-Owned m r {m'} g o e a v h = ground (
    arith,
    o a v,
    lookup-erase r.addr a m,
    subst (λ b. Good b r.peer) {x = r.addr} {y = a},
    subst (Good a) {x = r.peer} {y = v},
  )

  abbrev Fine : Router × List Route → Type 0
  Fine r = Owned r.0 × AllGood r.1

  drain-Fine :
      (pops : List (Option Route)) (m : Router) (kept : List Route)
      → AllGood (popped pops)
      → Owned m
      → AllGood kept
      → Fine (drain pops m kept)
  unfolding drain popped
  drain-Fine [] m kept g o k = (o, k)
  drain-Fine (none ∷ pops) m kept g o k = drain-Fine pops m kept g o k
  drain-Fine (some r ∷ pops) m kept g o k = elim (Option-cases (apply m r)) [
    | inl e ↦
        rw (e, drain)
          (drain-Fine pops m (kept ++ r ∷ []) g.1 o (AllGood-append kept (r ∷ []) k (g.0, tt)))
    | inr (m', e) ↦ rw (e, drain) (drain-Fine pops m' kept g.1 (apply-Owned m r g.0 o e) k)
  ]

  pass-Fine :
      (fuel i size : ℕ) (m : Router) (kept : List Route) {x : Router × List Route}
      → Owned m
      → AllGood kept
      → pass fuel i size m kept ≡ some x
      → Fine x
  unfolding pass
  pass-Fine zero i size m kept o k e = absurd (ground arith)
  pass-Fine (suc fuel) i size m [] {x} o k e = elim (Bool-cases (ltb i size)) [
    | inl more ↦ let n : none ≡ some x = rw (pass, more) at e in absurd (ground arith)
    | inr over ↦
        let q : some (m, []) ≡ some x = rw (pass, over) at e in
        let same : (m, []) ≡ x = cc in subst Fine same (o, k)
  ]
  pass-Fine (suc fuel) i size m (r ∷ kept) {x} o k e = elim (Bool-cases (ltb i size)) [
    | inr over ↦
        let q : some (m, r ∷ kept) ≡ some x = rw (pass, over) at e in
        let same : (m, r ∷ kept) ≡ x = cc in subst Fine same (o, k)
    | inl more ↦ elim (Option-cases (apply m r)) [
      | inl stuck ↦
          pass-Fine fuel ((i + 1) % 2 ^ 32) size m (kept ++ r ∷ []) o
            (AllGood-append kept (r ∷ []) k.1 (k.0, tt))
            (let q : pass fuel ((i + 1) % 2 ^ 32) size m (kept ++ r ∷ []) ≡ some x =
                rw (pass, more, stuck) at e in
              q)
      | inr (m', done) ↦
          pass-Fine fuel ((i + 1) % 2 ^ 32) size m' kept (apply-Owned m r k.0 o done) k.1 (
            let q : pass fuel ((i + 1) % 2 ^ 32) size m' kept ≡ some x =
              rw (pass, more, done) at e in
            q)
    ]
  ]

  retry-Owned :
      (fuel prev size : ℕ) (m : Router) (kept : List Route) {m' : Router} {dropped : List Route}
      → Owned m
      → AllGood kept
      → retry fuel prev size m kept ≡ some (m', dropped)
      → Owned m'
  unfolding retry
  retry-Owned zero prev size m kept o k e = absurd (ground arith)
  retry-Owned (suc fuel) prev size m kept {m'} {dropped} o k e =
      ends (prev == size) (pass (suc (length kept)) 0 (length kept) m kept)
        (λ x q. pass-Fine (suc (length kept)) 0 (length kept) m kept o k q)
        (λ x f q. retry-Owned fuel size (length x.1) x.0 x.1 f.0 f.1 q) e
    where
      to :
          {x y : Router} {k l : List Route}
          → Owned x
          → Path (Option (Router × List Route)) (some (x, k)) (some (y, l))
          → Owned y
      to {x} {y} w h = subst Owned (cc) w

      inner :
          (c : Bool) (x : Router × List Route) {r : Option (Router × List Route)}
          → Fine x
          → (r ≡ some (m', dropped) → Owned m')
          → (if c then some (x.0, []) else r) ≡ some (m', dropped)
          → Owned m'
      inner true x f h q = to f.0 q
      inner false x f h q = h q

      ends :
          (b : Bool) (r : Option (Router × List Route))
          → ((x : Router × List Route) → r ≡ some x → Fine x)
          → ((x : Router × List Route)
              → Fine x
              → retry fuel size (length x.1) x.0 x.1 ≡ some (m', dropped)
              → Owned m')
          → Path
              (Option (Router × List Route))
              (if b then some (m, kept) else elim r [
                | none ↦ none
                | some (n, left) ↦
                    if length left == 0 then some (n, []) else retry fuel size (length left) n left
              ])
              (some (m', dropped))
          → Owned m'
      ends true r f h q = to o q
      ends false none f h q = absurd (ground arith)
      ends false (some x) f h q = inner (length x.1 == 0) x (f x refl) (h x (f x refl)) q

  settle-Owned :
      (m : Router) (kept : List Route) {m' : Router} {dropped : List Route}
      → Owned m
      → AllGood kept
      → settle m kept ≡ some (m', dropped)
      → Owned m'
  unfolding settle
  settle-Owned m [] o k e = subst Owned (cc) o
  settle-Owned m (r ∷ kept) o k e = retry-Owned _ _ _ m (r ∷ kept) o k e

-- One of the requests asks to add `v` at `a`.
abbrev pub Requested : ℕ → Peer → List Route → Type 0
Requested a v [] = ⊥
Requested a v (r ∷ rs) = ((r.add_or_remove ≡ true) × (r.addr ≡ a) × (r.peer ≡ v)) ⊎ Requested a v rs

abbrev pub Comes : Router → List Route → ℕ → Peer → Type 0
Comes m rs a v = (lookup a m ≡ some v) ⊎ Requested a v rs

AllGood-self :
    (Good : ℕ → Peer → Type 0) (rs : List Route)
    → ((a : ℕ) (v : Peer) → Requested a v rs → Good a v)
    → AllGood Good rs
AllGood-self Good [] h = tt
AllGood-self Good (r ∷ rs) h =
    (λ e. h r.addr r.peer (inl (e, refl, refl)), AllGood-self Good rs (λ a v q. h a v (inr q)))

-- After `emptyQueue` every entry of the router was there before at its address, or comes from a
-- request to add just that connection and key at that address.
pub empty_queue-Comes :
    (pops : List (Option Route)) (m m' : Router) (dropped : List Route)
    → empty_queue pops m ≡ some (m', dropped)
    → (a : ℕ) (v : Peer) → lookup a m' ≡ some v
    → (lookup a m ≡ some v) ⊎ Requested a v (popped pops)
unfolding empty_queue
empty_queue-Comes pops m m' dropped e =
    let Good = Comes m (popped pops) in
    let (o, k) =
      drain-Fine Good pops m [] (AllGood-self Good (popped pops) (λ a v q. inr q)) (λ a v h. inl h)
        tt in
    settle-Owned Good (drain pops m []).0 (drain pops m []).1 o k e
