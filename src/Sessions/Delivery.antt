-- ===== src/Sessions/Delivery.antt =====
-- A packet of the tunnel, read while the sessions come and go.
use vpverk.Base.{ℕ, ◌≡◌, refl, ◌↔◌, true, false, ◌==◌, Option, none, some, List, map, length, arith}
use vpverk.Effect.{Outcome, ok, throw, abort, unfinished}
use vpverk.Router.{Peer, Router, lookup}
use vpverk.Forward.{Decision, deliver, to_peer, decide, forward, destination, ip_version}
use vpverk.Schedule.{run}
use vpverk.Sessions.{Act, next, nobody}
use vpverk.Sessions.Sound.{NoFailures}
use vpverk.Sessions.Serves.{RoutedAt, run-routes}

to_peer-deliver :
    (o : Option Peer) (v : Peer) (p : List ℕ) → (to_peer o p ≡ deliver v p) ↔ (o ≡ some v)
unfolding to_peer
to_peer-deliver none v p = (λ e. cc, λ e. cc)
to_peer-deliver (some u) v p = (λ e. cc, λ e. cc)

-- How a round ends that is to end with `d`, if the check of the bytes ends so.
abbrev pub checked : Outcome (Unit {0}) → Decision → Outcome Decision
checked (ok u) d = ok d
checked (throw e) d = throw e
checked (abort m) d = abort m
checked unfinished d = unfinished

decide-to_peer :
    (behind : ℕ → ℕ) (look : List ℕ → Outcome (Unit {0})) (p : List ℕ) (m : Router)
    → (length p == 0) ≡ false
    → ip_version behind p ≡ 4
    → decide behind look p m ≡ checked (look p) (to_peer (lookup (destination behind p) m) p)
unfolding decide
decide-to_peer behind look p m some_bytes four =
    let v : (ip_version behind p == 4) ≡ true = ground arith in
    rw (some_bytes, v) (by_outcome (look p))
  where
    by_outcome :
        (o : Outcome (Unit {0}))
        → Path
            (Outcome Decision)
            (elim o [
              | ok _ ↦ ok (to_peer (lookup (destination behind p) m) p)
              | throw e ↦ throw e
              | abort t ↦ abort t
              | unfinished ↦ unfinished
            ])
            (checked o (to_peer (lookup (destination behind p) m) p))
    by_outcome (ok u) = refl
    by_outcome (throw e) = refl
    by_outcome (abort t) = refl
    by_outcome unfinished = refl

-- However the steps of the sessions interleave, if none fails between taking its address and adding its
-- route, and whatever checks of the bytes of addresses and of packets stand in the code (its own end
-- every call by `cuabort`): a round of `routeTunToClients` on a packet of version 4 empties the queue.
-- If the check of the packet does not let it pass, the round ends as the check does. If it does, the
-- round hands the packet to the connection and key of the session that has added its route at the
-- destination of the packet and not left, or, if there is no such session, to nobody.
pub run-delivers :
    (check : ℕ → Outcome (Unit {0})) (behind : ℕ → ℕ) (look : List ℕ → Outcome (Unit {0}))
    (counter : ℕ) (acts : List (ℕ × Act)) (p : List ℕ)
    → NoFailures acts
    → (length p == 0) ≡ false
    → ip_version behind p ≡ 4
    → let s = run (next check) (nobody counter) acts in
      (d : Decision) × (m : Router) × (forward behind look
          (map some s.shared.shared.queue)
          p
          s.shared.router
        ≡ some (checked (look p) d, m))
      × ((v : Peer) → (d ≡ deliver v p) ↔ RoutedAt s.place (destination behind p) v)
unfolding forward
run-delivers check behind look counter acts p n some_bytes four =
    let (m, e, found) = run-routes check counter acts n in
    (
      to_peer (lookup (destination behind p) m) p,
      m,
      rw (forward, e, decide-to_peer behind look p m some_bytes four) refl,
      λ v.
          let (to, from) = to_peer-deliver (lookup (destination behind p) m) v p in
          let (there, back) = found (destination behind p) v in
          (λ d. there (to d), λ r. from (back r)),
    )
