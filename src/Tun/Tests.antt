-- ===== src/Tun/Tests.antt =====
-- Interleavings of a reader and two writers of the tunnel.
use vpverk.Base.{ℕ, ◌≤◌, inl, Option, none, some, ◌≡◌, refl, arith, true, List, [], ◌∷◌, ◌++◌, ◌↔◌}
use vpverk.Schedule.{run, step}
use vpverk.Effect.{ok}
use vpverk.Loop.{Loop, loop_run}
use vpverk.Schedule.{System}
use vpverk.Tun.Turns.{coroutine}
use vpverk.Tun.Turns.First.{turns_only, write_first}
use vpverk.Tun.{
  Device, Place, idle, write_locked, aborted, Event, calls_read, calls_write, goes_on, completes,
  arrives, writes, next, start,
}
use vpverk.Tun.Safety.{operates, holds_lock, operation_alone}
use vpverk.Tun.Cancel.{writing_canceled}

-- The coroutine 0 waits for a packet, and 1 finds it and goes through the strand.
abbrev found : List (ℕ × Event)
found = (0, calls_read) ∷ (0, goes_on) ∷ (0, goes_on) ∷ (0, goes_on) ∷ (1, calls_write) ∷ []

-- Then the read ends by itself, and the coroutine 2 writes.
abbrev overtaken : List (ℕ × Event)
overtaken =
    found
    ++ ((0, completes)
        ∷ (0, arrives 40)
        ∷ (0, goes_on)
        ∷ (0, goes_on)
        ∷ (2, calls_write)
        ∷ (2, goes_on)
        ∷ (2, goes_on)
        ∷ [])

operation_alone_example :
    let s = run next start overtaken in
    (operates (s.place 2) ≡ true → holds_lock (s.place 0) ≡ true → ◌≡◌ {A = ℕ} 2 0)
    × ((s.shared.busy ≡ true) ↔ ((k : ℕ) × (operates (s.place k) ≡ true)))
operation_alone_example = operation_alone overtaken 2 0

writing_canceled_example :
    (run next start (overtaken ++ ((1, goes_on) ∷ (2, writes) ∷ []))).place 2 ≡ aborted
unfolding run step next native.Mathlib.Decide.ℕ_discrete
writing_canceled_example = writing_canceled overtaken 1 2 (λ e. omega arith) refl refl refl

-- The loop calls the handlers in the order of the posts, and nothing waits for a coroutine.
unfoldable in_order : List ℕ → Option (ℕ × List ℕ)
in_order [] = none
in_order (h ∷ rest) = some (h, rest)

-- The coroutine 1 has canceled the read, which is done.
abbrev ended : List (ℕ × Event)
ended = found ++ ((1, goes_on) ∷ (0, arrives 40) ∷ [])

write_first_example :
    (m : ℕ) × ((m ≤ 3)
      × ((k : Loop (System Place Device)) × ((loop_run in_order
                (coroutine (λ h. []))
                (turns_only m)
                (record {
                  state = run next start ended;
                  ready = 1 ∷ 0 ∷ [];
                  over = [];
                  resumed = [];
                })
              ≡ (ok tt, k))
            × ((k.state.place 1 ≡ write_locked) × (k.state.place 0 ≡ idle)))))
unfolding run step next native.Mathlib.Decide.ℕ_discrete in_order
write_first_example =
    write_first in_order (λ h. []) ended (1 ∷ 0 ∷ []) [] 0 1 0 (λ h rest. refl) (λ e. omega arith)
      refl refl (inl refl)
