-- ===== src/Sessions/Serves.antt =====
-- What the sessions and the router come to, however their steps interleave.
use vpverk.Base.{ℕ, ◌≡◌, sym, ap, ◌∙◌, ◌↔◌, some, Option, List, [], map, inl, inr, arith}
use vpverk.Effect.{Outcome}
use vpverk.Router.{Peer, Router, lookup, empty_queue}
use vpverk.Schedule.{run}
use vpverk.Sessions.{World, Stage, outside, holds, routed, unrouted, Act, next, nobody}
use vpverk.Sessions.Applies.{empty_queue-apply_all, registered-none}
use vpverk.Sessions.Apart.{address}
use vpverk.Sessions.Routed.{entry, Accounts}
use vpverk.Sessions.Sound.{NoFailures, Sound, nobody-Sound}
use vpverk.Sessions.Moves.{run-Sound}

entry-routed : (p : Stage) (a : ℕ) (v : Peer) → entry p ≡ some (a, v) → p ≡ routed a v
unfolding entry
entry-routed outside a v e = absurd (ground arith)
entry-routed (holds b) a v e = absurd (ground arith)
entry-routed (routed b u) a v e = cc
entry-routed (unrouted b) a v e = absurd (ground arith)

-- The session `i` is in the router, or will be when the queue is emptied.
abbrev pub RoutedAt : (ℕ → Stage) → ℕ → Peer → Type 0
RoutedAt f a v = (i : ℕ) × (f i ≡ routed a v)

same_peer : (a b : ℕ) (u v : Peer) → Path Stage (routed a u) (routed b v) → u ≡ v
same_peer a b u v e = cc

module _ (f : ℕ → Stage) (w : World) (s : Sound f w) where
  looked_up :
      (a : ℕ) (v : Peer)
      → Accounts f s.roads.later a
      → (lookup a s.roads.later ≡ some v) ↔ RoutedAt f a v
  unfolding entry address
  looked_up a v (inl (free, no_one)) = (
    λ e. absurd (registered-none a v s.roads.later free e),
    λ (i, e). absurd (no_one i v (ap entry e)),
  )
  looked_up a v (inr (i, u, q, l)) = (
    λ e.
        let same : u ≡ v = same_some (sym l ∙ e) in
        (i, entry-routed (f i) a v (q ∙ ap (λ x. some (a, x)) same)),
    λ (j, e).
        let at_i = entry-routed (f i) a u q in
        let ij : i ≡ j = s.apart.one i j a (ap address at_i) (ap address e) in
        l ∙ ap some (same_peer a a u v (sym at_i ∙ ap f ij ∙ e)),
  )
    where
      same_some : Path (Option Peer) (some u) (some v) → u ≡ v
      same_some k = cc

-- Under the same condition, `emptyQueue` carries out all the requests that are in the queue at any
-- time, dropping none, and the router then sends an address to the connection and key of the session
-- that has added its route there and not left, and an address without such a session to nobody.
pub run-routes :
    (check : ℕ → Outcome (Unit {0})) (counter : ℕ) (acts : List (ℕ × Act))
    → NoFailures acts
    → let s = run (next check) (nobody counter) acts in
      (m : Router) × (empty_queue (map some s.shared.shared.queue) s.shared.router ≡ some (m, []))
      × ((a : ℕ) (v : Peer) → (lookup a m ≡ some v) ↔ RoutedAt s.place a v)
run-routes check counter acts n =
    let s = run (next check) (nobody counter) acts in
    let h : Sound s.place s.shared =
      run-Sound check acts (nobody counter) n (nobody-Sound counter) in
    (
      h.roads.later,
      empty_queue-apply_all s.shared.router h.roads.later s.shared.shared.queue h.roads.ends,
      λ a v. looked_up s.place s.shared h a v (h.roads.account a),
    )
