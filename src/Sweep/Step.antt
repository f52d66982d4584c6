-- ===== src/Sweep/Step.antt =====
-- A round of the loop of `closeOldSessions` (src/server/contexts/sessionscontrol.cpp), and what it leaves.
use vpverk.Base.{
  ℕ, suc, ◌+◌, min, ◌≤◌, ◌<◌, ◌≡◌, refl, sym, ap, subst, ◌∙◌, String, Bool, some, List, [], ◌∷◌,
  ◌++◌, length, get_elem?, get_elem?-lt, set, length-set, ◌==◌, arith, if◌then◌else◌, Bool-cases,
  inl, inr,
}
use vpverk.Effect.{Outcome, ok, throw, abort, unfinished, continue}
use vpverk.Net.{Socket}
use vpverk.Connection.{Connection, close}
use vpverk.Sweep.{Entry, Table, keep, drop, look, swap_remove, close_entry, sweep, crash}
use vpverk.Sweep.Removal.{
  tally, one, tally-set, get-set_other, get-set_same, Removes, swap_remove-Removes,
}
use vpverk.Sweep.Looks.{
  named, named_closed, Stays, AllGo, AllGo-append, some_inj, tally-append, tally_zero, Closes,
  close-Closes, locked,
}

module _ (S : Socket) where
  module _ (yield : Connection S → Connection S) (spins : ℕ)
      (meanwhile : List (Entry S) → List (Entry S)) where
    -- A sweep that ends by itself: each connection stands still in the table or was closed, as often as
    -- it was there at the start; all that stand there were looked at and stay, and all that were closed
    -- were looked at and go. Or the program is inside `cuabort`, on an exception.
    abbrev pub Swept : ℕ → List (Entry S) → Outcome (Unit {0}) × Table S → Type 0
    Swept max xs (ok _, t) =
        ((n : ℕ)
          → tally (named S n) t.connections + tally (named_closed S n) t.closed
            ≡ tally (named S n) xs)
        × ((j : ℕ) (e : Entry S) → get_elem? t.connections j ≡ some e → Stays S max e)
        × AllGo S max t.closed
    Swept max xs (throw e, t) = ⊥
    Swept max xs (abort m, t) = Path String m "exception in close old: "
    Swept max xs (unfinished, t) = ⊥

    pub record Sweeping (max i fuel : ℕ) (xs : List (Entry S)) (t : Table S) : Type 0 where
      pub within : i ≤ length t.connections
      pub enough : length t.connections < i + fuel
      pub free : tally (locked S) t.connections ≡ 0
      pub counts :
          (n : ℕ)
          → tally (named S n) t.connections + tally (named_closed S n) t.closed
            ≡ tally (named S n) xs
      pub stay : (j : ℕ) (e : Entry S) → j < i → get_elem? t.connections j ≡ some e → Stays S max e
      pub go : AllGo S max t.closed

    -- What the rest of the sweep does from a table that is as it should be.
    abbrev pub Again : ℕ → ℕ → List (Entry S) → Type 0
    Again max fuel xs =
        (i : ℕ) (t : Table S)
        → Sweeping max i fuel xs t
        → Swept max xs
            (crash S yield (suc spins) meanwhile (sweep S yield (suc spins) meanwhile fuel max i t))

    pub closed-Swept :
        (fuel max i : ℕ) (xs : List (Entry S)) (t : Table S) (e f : Entry S) (reason : List ℕ)
        → ((ys : List (Entry S)) → meanwhile ys ≡ ys)
        → Again max fuel xs
        → Sweeping max i (suc fuel) xs t
        → get_elem? t.connections i ≡ some e
        → look S max e ≡ (ok (drop reason), f)
        → (f.name ≡ e.name) × (f.con.write_locked ≡ e.con.write_locked) × (length reason ≤ 100)
        → Swept max xs (
            crash S yield (suc spins) meanwhile (
              continue
                (λ u k.
                  sweep S yield (suc spins) meanwhile fuel max (min i (length k.connections)) k)
                (close_entry S yield
                  (suc spins)
                  meanwhile
                  reason
                  f
                  (record t { connections = swap_remove i t.connections }))))
    unfolding crash close_entry
    closed-Swept fuel max i xs t e f reason alone again v at says (same, still, brief) =
        go (close S yield (suc spins) reason f.con) (
          close-Closes S yield spins reason f.con (omega arith)
            (still ∙ tally_zero S (locked S) t.connections i e v.free at))
      where
        gone : Removes i e t.connections (swap_remove i t.connections)
        gone = swap_remove-Removes t.connections i e at

        after : Connection S → Table S
        after c = record {
          connections = meanwhile (swap_remove i t.connections);
          closed = t.closed ++ (record f { con = c }, reason) ∷ [];
        }

        left : (c : Connection S) → Sweeping max i fuel xs (after c)
        left c = rw (alone (swap_remove i t.connections)) (record {
          within = ground (arith, gone.shorter, get_elem?-lt t.connections i at);
          enough = omega (arith, gone.shorter, v.enough);
          free = omega (arith, gone.counts (locked S), v.free);
          counts = λ n.
              let w : one (named_closed S n) (record f { con = c }, reason) ≡ one (named S n) e =
                ap (λ (m : ℕ). if m == n then 1 else 0) same in
              omega (
                arith,
                tally-append S n t.closed ((record f { con = c }, reason) ∷ []),
                gone.counts (named S n),
                v.counts n,
                w,
              );
          stay = λ j k lt h. v.stay j k lt (sym (gone.before j lt) ∙ h);
          go =
              AllGo-append S max t.closed ((record f { con = c }, reason) ∷ []) v.go
                ((e, f, says, refl), tt);
        })

        go :
            (x : Outcome (Unit {0}) × Connection S)
            → Closes S x
            → Swept max xs (
                crash S yield (suc spins) meanwhile (
                  continue
                    (λ u k.
                      sweep S yield (suc spins) meanwhile fuel max (min i (length k.connections)) k)
                    (x.0, after x.1)))
        go (ok u, c) h =
            let place : min i (length (after c).connections) ≡ i = omega (arith, (left c).within) in
            subst
              (λ p. Swept max xs (
                crash S yield (suc spins) meanwhile
                  (sweep S yield (suc spins) meanwhile fuel max p (after c))))
              (sym place) (again i (after c) (left c))
        go (throw y, c) h = refl
        go (abort m, c) h = absurd h
        go (unfinished, c) h = absurd h

    pub kept-Swept :
        (fuel max i : ℕ) (xs : List (Entry S)) (t : Table S) (e f : Entry S)
        → Again max fuel xs
        → Sweeping max i (suc fuel) xs t
        → get_elem? t.connections i ≡ some e
        → look S max e ≡ (ok keep, f)
        → (f.name ≡ e.name) × (f.con.write_locked ≡ e.con.write_locked)
        → Swept max xs (
            crash S yield (suc spins) meanwhile (
              sweep S yield
                (suc spins)
                meanwhile
                fuel
                max
                (suc i)
                (record t { connections = set t.connections i f })))
    kept-Swept fuel max i xs t e f again v at says (same, still) =
        again (suc i) (record t { connections = set t.connections i f })
          (record {
            within = omega (arith, inside, length-set t.connections i f);
            enough = omega (arith, v.enough, length-set t.connections i f);
            free =
                let w : one (locked S) f ≡ one (locked S) e =
                  ap (λ (b : Bool). if b then 1 else 0) still in
                omega (arith, tally-set (locked S) t.connections i e f at, v.free, w);
            counts = λ n.
                let w : one (named S n) f ≡ one (named S n) e =
                  ap (λ (m : ℕ). if m == n then 1 else 0) same in
                omega (arith, tally-set (named S n) t.connections i e f at, v.counts n, w);
            stay = λ j k lt h. elim (Bool-cases (j == i)) [
              | inl here ↦
                  let ji : j ≡ i = ground arith in
                  let q : some f ≡ some k =
                    sym (get-set_same t.connections i f inside)
                    ∙ sym (ap (λ (m : ℕ). get_elem? (set t.connections i f) m) ji)
                    ∙ h in
                  (e, subst (λ g. look S max e ≡ (ok keep, g)) (some_inj S q) says)
              | inr there ↦
                  let less : j < i = ground arith in
                  v.stay j k less (sym (get-set_other t.connections i j f less) ∙ h)
            ];
            go = v.go;
          })
      where
        inside : i < length t.connections
        inside = get_elem?-lt t.connections i at
