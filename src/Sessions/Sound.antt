-- ===== src/Sessions/Sound.antt =====
-- What holds of the sessions and the router between any two steps.
use vpverk.Base.{ℕ, refl, Option, none, some, List, [], ◌∷◌, inl}
use vpverk.Router.{Peer, registered}
use vpverk.Sessions.{World, Stage, Act, takes, leaves, releases, routes, registers, fails, nobody}
use vpverk.Sessions.Applies.{apply_all}
use vpverk.Sessions.Apart.{address, Apart}
use vpverk.Sessions.Routed.{entry, Routed}

-- No session fails between taking its address and adding its route.
unfoldable pub NoFailure : Act → Type 0
NoFailure takes = Unit {0}
NoFailure leaves = Unit {0}
NoFailure releases = Unit {0}
NoFailure routes = Unit {0}
NoFailure (registers v) = Unit {0}
NoFailure (fails v) = ⊥

pub record Sound (f : ℕ → Stage) (w : World) : Type 0 where
  pub apart : Apart f w.shared.pool.taken
  pub roads : Routed f w.router w.shared.queue

-- In no session of a schedule does a failure come between the address and the route.
unfoldable pub NoFailures : List (ℕ × Act) → Type 0
NoFailures [] = Unit {0}
NoFailures ((i, a) ∷ acts) = NoFailure a × NoFailures acts

pub nobody-Sound : (counter : ℕ) → let s = nobody counter in Sound s.place s.shared
unfolding address entry registered apply_all
nobody-Sound counter = record {
  apart = record {
    held = λ i a q. absurd (let k = empty a q in k);
    one = λ i j a q r. absurd (let k = empty a q in k);
  };
  roads = record { later = []; ends = refl; account = λ a. inl (refl, λ i v q. none_there a v q) };
}
  where
    empty : (a : ℕ) → Path (Option ℕ) none (some a) → ⊥
    empty a k = cc

    none_there : (a : ℕ) (v : Peer) → Path (Option (ℕ × Peer)) none (some (a, v)) → ⊥
    none_there a v k = cc
