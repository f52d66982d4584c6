-- ===== src/Sessions/Tests.antt =====
-- Schedules of sessions, and the theorems at them.

use vpverk.Base.{ℕ, ◌≡◌, refl, ◌↔◌, some, List, [], ◌∷◌, map}
use vpverk.Effect.{Outcome, ok}
use vpverk.Router.{Peer, Router, lookup, empty_queue}
use vpverk.Schedule.{run}
use vpverk.Sessions.{Act, takes, leaves, routes, registers, next, nobody}
use vpverk.Sessions.Sound.{NoFailures, NoFailure}
use vpverk.Sessions.Serves.{RoutedAt, run-routes}
use vpverk.Forward.{Decision, deliver, forward, destination}
use vpverk.Sessions.Delivery.{checked, run-delivers}

abbrev passes : ℕ → Outcome (Unit {0})
passes a = ok tt

abbrev first_peer : Peer
first_peer = record { con = 1; aes = some 11 }

abbrev second_peer : Peer
second_peer = record { con = 2; aes = some 12 }

-- Two sessions come, and the first leaves while the second is served.
abbrev two_sessions : List (ℕ × Act)
two_sessions =
    (1, takes)
    ∷ (2, takes)
    ∷ (2, registers second_peer)
    ∷ (1, registers first_peer)
    ∷ (0, routes)
    ∷ (1, leaves)
    ∷ []

run-routes_example :
    let s = run (next passes) (nobody 1) two_sessions in
    (m : Router) × (empty_queue (map some s.shared.shared.queue) s.shared.router ≡ some (m, []))
    × ((a : ℕ) (v : Peer) → (lookup a m ≡ some v) ↔ RoutedAt s.place a v)
unfolding NoFailures NoFailure
run-routes_example = run-routes passes 1 two_sessions (tt, (tt, (tt, (tt, (tt, (tt, tt))))))

-- A packet for 10.123.0.3, the address of the second session.
abbrev for_second : List ℕ
for_second =
    69 ∷ 0 ∷ 0 ∷ 20 ∷ 0 ∷ 0 ∷ 0 ∷ 0 ∷ 64 ∷ 17 ∷ 0 ∷ 0 ∷ 10 ∷ 1 ∷ 1 ∷ 1 ∷ 10 ∷ 123 ∷ 0 ∷ 3 ∷ []

abbrev zeros : ℕ → ℕ
zeros i = 0

run-delivers_example :
    let s = run (next passes) (nobody 1) two_sessions in
    (d : Decision) × (m : Router) × (forward zeros
        (λ p. ok tt)
        (map some s.shared.shared.queue)
        for_second
        s.shared.router
      ≡ some (checked (ok tt) d, m))
    × ((v : Peer) → (d ≡ deliver v for_second) ↔ RoutedAt s.place (destination zeros for_second) v)
unfolding NoFailures NoFailure
run-delivers_example =
    run-delivers passes zeros (λ p. ok tt) 1 two_sessions for_second
      (tt, (tt, (tt, (tt, (tt, (tt, tt)))))) refl refl
