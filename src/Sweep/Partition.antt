-- ===== src/Sweep/Partition.antt =====
-- A sweep ends, and parts the table in those that stay and those that go.
use vpverk.Base.{
  ℕ, zero, suc, min, ◌≤◌, ◌≡◌, refl, some, List, [], length, get_elem?, get_elem?-lt, set, arith,
  Option-cases, inl, inr,
}
use vpverk.Effect.{Outcome, ok, throw, abort, unfinished, continue}
use vpverk.Net.{Socket}
use vpverk.Connection.{Connection}
use vpverk.Sweep.{
  Entry, Table, Verdict, keep, drop, look, swap_remove, close_entry, sweep, crash,
  close_old_sessions,
}
use vpverk.Sweep.Removal.{tally}
use vpverk.Sweep.Looks.{none-le, Looks, look-Looks, locked}
use vpverk.Sweep.Step.{Swept, Sweeping, Again, kept-Swept, closed-Swept}

module _ (S : Socket) where
  module _ (yield : Connection S → Connection S) (spins : ℕ)
      (meanwhile : List (Entry S) → List (Entry S)) where
    sweep-Swept :
        (fuel max i : ℕ) (xs : List (Entry S)) (t : Table S)
        → ((ys : List (Entry S)) → meanwhile ys ≡ ys)
        → Sweeping S yield spins meanwhile max i fuel xs t
        → Swept S yield spins meanwhile max xs
            (crash S yield (suc spins) meanwhile (sweep S yield (suc spins) meanwhile fuel max i t))
    unfolding sweep crash
    sweep-Swept zero max i xs t alone v = absurd (omega (arith, v.within, v.enough))
    sweep-Swept (suc fuel) max i xs t alone v = elim (Option-cases (get_elem? t.connections i)) [
      | inl none_left ↦
          let all : length t.connections ≤ i = none-le S t.connections i none_left in
          rw (sweep, none_left)
            (
              v.counts,
              λ j e h. v.stay j e (omega (arith, all, get_elem?-lt t.connections j h)) h,
              v.go,
            )
      | inr (e, at) ↦
          rw (sweep, at)
            (seen e at (λ j k. sweep-Swept fuel max j xs k alone) (look S max e) refl
              (look-Looks S max e))
    ]
      where
        seen :
            (e : Entry S)
            → get_elem? t.connections i ≡ some e
            → Again S yield spins meanwhile max fuel xs
            → (r : Outcome Verdict × Entry S) → look S max e ≡ r
            → Looks S e r
            → Swept S yield spins meanwhile max xs (
                crash S yield (suc spins) meanwhile (elim r.0 [
                  | ok v ↦ elim v [
                    | keep ↦
                        sweep S yield
                          (suc spins)
                          meanwhile
                          fuel
                          max
                          (suc i)
                          (record t { connections = set t.connections i r.1 })
                    | drop reason ↦
                        continue
                          (λ u k.
                            sweep S yield
                              (suc spins)
                              meanwhile
                              fuel
                              max
                              (min i (length k.connections))
                              k)
                          (close_entry S yield
                            (suc spins)
                            meanwhile
                            reason
                            r.1
                            (record t { connections = swap_remove i t.connections }))
                  ]
                  | throw x ↦ (throw x, record t { connections = set t.connections i r.1 })
                  | abort m ↦ (abort m, record t { connections = set t.connections i r.1 })
                  | unfinished ↦ (unfinished, record t { connections = set t.connections i r.1 })
                ]))
        seen e at again (ok keep, f) says h =
            kept-Swept S yield spins meanwhile fuel max i xs t e f again v at says (h.0, h.1)
        seen e at again (ok (drop reason), f) says h =
            closed-Swept S yield spins meanwhile fuel max i xs t e f reason alone again v at says h
        seen e at again (throw x, f) says h = refl
        seen e at again (abort m, f) says h = absurd h
        seen e at again (unfinished, f) says h = absurd h

    -- While nobody has the write lock of a connection of the table, and no other coroutine changes the
    -- table, a sweep ends. It aborts on an exception of a look or of a close. Otherwise each connection
    -- stands still in the table or was closed, as often as it was there; all that stand there were looked
    -- at and stay, and all that were closed were looked at and go.
    pub close_old_sessions-Swept :
        (max : ℕ) (xs : List (Entry S))
        → ((ys : List (Entry S)) → meanwhile ys ≡ ys)
        → tally (locked S) xs ≡ 0
        → Swept S yield spins meanwhile max xs (
            close_old_sessions S yield
              (suc spins)
              meanwhile
              max
              (record { connections = xs; closed = [] }))
    unfolding close_old_sessions
    close_old_sessions-Swept max xs alone free =
        sweep-Swept (suc (length xs)) max 0 xs (record { connections = xs; closed = [] }) alone
          (record {
            within = omega arith;
            enough = omega arith;
            free = free;
            counts = λ n. omega arith;
            stay = λ j e lt h. absurd (omega arith);
            go = tt;
          })
