-- ===== src/Sweep/Looks.antt =====
-- What a look at a connection and a close of it come to.
use vpverk.Base.{
  ℕ, zero, suc, ◌+◌, ◌-◌, ◌≤◌, ◌≡◌, refl, sym, ap, ◌∙◌, Bool, true, false, Option, none, some, List,
  [], ◌∷◌, ◌++◌, length, get_elem?, leb, ◌==◌, arith, if◌then◌else◌, Bool-cases, inl, inr,
}
use vpverk.Effect.{
  with_code, Expected, value, unexpected, Outcome, ok, throw, abort, unfinished, continue,
}
use vpverk.Net.{Socket, reliable_is_open, u32_max}
use vpverk.Connection.{Connection, is_active, is_active_nolock, close}
use vpverk.Connection.Close.{close-Tells, close_shut, Tells}
use vpverk.Sweep.{Entry, Verdict, keep, drop, look, judge, judged}
use vpverk.Sweep.Removal.{tally}

module _ (S : Socket) where
  abbrev pub named : ℕ → Entry S → Bool
  named n e = e.name == n

  abbrev pub named_closed : ℕ → Entry S × List ℕ → Bool
  named_closed n x = x.0.name == n

  abbrev pub locked : Entry S → Bool
  locked e = e.con.write_locked

  -- The look at a connection said that it stays, and left it like this.
  abbrev pub Stays : ℕ → Entry S → Type 0
  Stays max e = (before : Entry S) × (look S max before ≡ (ok keep, e))

  -- The look at a connection of that name said that it goes, for that reason.
  abbrev Goes : ℕ → Entry S × List ℕ → Type 0
  Goes max (e, reason) =
      (before : Entry S) × (after : Entry S) × (look S max before ≡ (ok (drop reason), after))
      × (e.name ≡ after.name)

  abbrev pub AllGo : ℕ → List (Entry S × List ℕ) → Type 0
  AllGo max [] = Unit {0}
  AllGo max (x ∷ xs) = Goes max x × AllGo max xs

  pub AllGo-append :
      (max : ℕ) (xs ys : List (Entry S × List ℕ))
      → AllGo max xs
      → AllGo max ys
      → AllGo max (xs ++ ys)
  AllGo-append max [] ys h k = k
  AllGo-append max (x ∷ xs) ys h k = (h.0, AllGo-append max xs ys h.1 k)

  pub some_inj : {a b : Entry S} → some a ≡ some b → a ≡ b
  some_inj h = cc

  pub none-le : (xs : List (Entry S)) (i : ℕ) → get_elem? xs i ≡ none → length xs ≤ i
  none-le [] i h = omega arith
  none-le (x ∷ xs) zero h = absurd cc
  none-le (x ∷ xs) (suc i) h = omega (arith, none-le xs i h)

  pub tally-append :
      (n : ℕ) (xs ys : List (Entry S × List ℕ))
      → tally (named_closed n) (xs ++ ys) ≡ tally (named_closed n) xs + tally (named_closed n) ys
  tally-append n [] ys = omega arith
  tally-append n (x ∷ xs) ys = omega (arith, tally-append n xs ys)

  pub tally_zero :
      (p : Entry S → Bool) (xs : List (Entry S)) (i : ℕ) (e : Entry S)
      → tally p xs ≡ 0
      → get_elem? xs i ≡ some e
      → p e ≡ false
  tally_zero p [] i e z h = absurd cc
  tally_zero p (x ∷ xs) zero e z h = elim (Bool-cases (p x)) [
    | inl yes_p ↦ absurd (let q : 1 + tally p xs ≡ 0 = rw yes_p at z in omega arith)
    | inr no_p ↦ ap p (sym (let q : x ≡ e = cc in q)) ∙ no_p
  ]
  tally_zero p (x ∷ xs) (suc i) e z h = tally_zero p xs i e (omega arith) h

  -- The reason given is short.
  abbrev Brief : Verdict → Type 0
  Brief keep = Unit {0}
  Brief (drop reason) = length reason ≤ 100

  judge-Brief : (max age : ℕ) (a : Option Bool) → Brief (judge S max age a)
  unfolding judge
  judge-Brief max age none = tt
  judge-Brief max age (some false) = omega arith
  judge-Brief max age (some true) = elim (Bool-cases (leb max age)) [
    | inl old ↦ rw old (omega arith)
    | inr young ↦ rw young tt
  ]

  -- What a look comes to: a verdict or an exception, with the name and the lock as they were.
  abbrev pub Looks : Entry S → Outcome Verdict × Entry S → Type 0
  Looks e (ok v, f) = (f.name ≡ e.name) × (f.con.write_locked ≡ e.con.write_locked) × Brief v
  Looks e (throw x, f) = Unit {0}
  Looks e (abort m, f) = ⊥
  Looks e (unfinished, f) = ⊥

  pub look-Looks : (max : ℕ) (e : Entry S) → Looks e (look S max e)
  unfolding look judged is_active is_active_nolock
  look-Looks max e = choose e.con.read_locked
    where
      go :
          (x : Expected Bool × S.State)
          → Looks e (
              judged S max e (
                continue
                  (λ b. λ d. (ok (some b), d))
                  (elim x.0 [
                    | value b ↦ (ok b, record e.con { sock = x.1 })
                    | unexpected c ↦ (
                      throw (with_code "reliable is open unexpected error code: " c),
                      record e.con { sock = x.1 },
                    )
                  ])))
      go (value b, s) = (refl, refl, judge-Brief max e.alive_time (some b))
      go (unexpected c, s) = tt

      choose :
          (b : Bool)
          → Looks e (
              judged S max e (
                if b
                then (ok none, e.con)
                else continue (λ b. λ d. (ok (some b), d)) (is_active_nolock S e.con)))
      choose true = (refl, refl, tt)
      choose false = go (reliable_is_open S e.con.sock)

  -- What a close comes to while nobody has the write lock.
  abbrev pub Closes : Outcome (Unit {0}) × Connection S → Type 0
  Closes (ok _, c) = Unit {0}
  Closes (throw _, c) = Unit {0}
  Closes (abort _, c) = ⊥
  Closes (unfinished, c) = ⊥

  pub close-Closes :
      (yield : Connection S → Connection S) (spins : ℕ) (reason : List ℕ) (c : Connection S)
      → length reason ≤ u32_max - 13
      → c.write_locked ≡ false
      → Closes (close S yield (suc spins) reason c)
  close-Closes yield spins reason c small free = elim (Bool-cases c.closed) [
    | inl shut ↦ rw (close_shut S yield (suc spins) reason c shut) tt
    | inr opened ↦
        go (close S yield (suc spins) reason c)
          (close-Tells S yield spins reason c small opened free)
  ]
    where
      go : (x : Outcome (Unit {0}) × Connection S) → Tells S reason c x → Closes x
      go (ok u, d) t = tt
      go (throw e, d) t = tt
      go (abort m, d) t = t.finished
      go (unfinished, d) t = t.finished
