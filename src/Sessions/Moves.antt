-- ===== src/Sessions/Moves.antt =====
-- What a step keeps of it.
use vpverk.Base.{
  ℕ, ◌≡◌, refl, sym, ap, subst, ◌∙◌, true, Option, none, some, List, [], ◌∷◌, ◌++◌, contains,
  length, ltb, Bool-cases, inl, inr, arith,
}
use vpverk.Effect.{Outcome, ok, throw, abort, unfinished}
use vpverk.Address.{AddressPool, allot, rounds, release}
use vpverk.Address.Gives.{Gives, GivesIf, allot-Gives, allot_takes}
use vpverk.Router.{Peer, Route}
use vpverk.Lifecycle.{try_push, queue_capacity}
use vpverk.Schedule.{System, step, run}
use vpverk.Sessions.{
  World, Stage, outside, holds, routed, unrouted, Act, takes, leaves, releases, routes, registers,
  fails, addition, removal, push, taken, route, next,
}
use vpverk.Schedule.Places.{moved}
use vpverk.Sessions.Applies.{empty_queue-apply_all}
use vpverk.Sessions.Apart.{address, Apart, Apart-alike, Apart-more, Apart-takes, Apart-releases}
use vpverk.Sessions.Routed.{
  entry, Unasked, Routed, Routed-alike, Routed-adds, Routed-removes, Routed-empties,
}
use vpverk.Sessions.Sound.{NoFailure, NoFailures, Sound}

entry-address : (p : Stage) (a : ℕ) (v : Peer) → entry p ≡ some (a, v) → address p ≡ some a
unfolding entry address
entry-address outside a v e = absurd (ground arith)
entry-address (holds b) a v e = absurd (ground arith)
entry-address (routed b u) a v e = ground arith
entry-address (unrouted b) a v e = absurd (ground arith)

module _ (check : ℕ → Outcome (Unit {0})) (f : ℕ → Stage) (i : ℕ) where
  -- Only one session is at the address.
  alone :
      (w : World) (a : ℕ)
      → address (f i) ≡ some a
      → Sound f w
      → (j : ℕ) (v : Peer) → entry (f j) ≡ some (a, v)
      → i ≡ j
  alone w a e s j v q = s.apart.one i j a e (entry-address (f j) a v q)

  -- A step that changes neither an address nor a route.
  Sound-alike :
      (w w' : World) (p : Stage)
      → address p ≡ address (f i)
      → entry p ≡ entry (f i)
      → w'.shared.pool.taken ≡ w.shared.pool.taken
      → w'.shared.queue ≡ w.shared.queue
      → w'.router ≡ w.router
      → Sound f w
      → Sound (moved f i p) w'
  Sound-alike w w' p e g t q r s = record {
    apart = subst (Apart (moved f i p)) (sym t) (Apart-alike f i p w.shared.pool.taken e s.apart);
    roads = rw (q, r) (Routed-alike f i p w.router w.shared.queue g s.roads);
  }

  stays : (w : World) (p : Stage) → f i ≡ p → Sound f w → Sound (moved f i p) w
  stays w p e s = Sound-alike w w p (ap address (sym e)) (ap entry (sym e)) refl refl refl s

  abbrev Leads : Stage × World → Type 0
  Leads r = Sound (moved f i r.0) r.1

  push-Sound :
      (w : World) (p q : Stage) (r : Route)
      → f i ≡ p
      → address q ≡ address p
      → (Routed f w.router w.shared.queue
          → Routed (moved f i q) w.router (w.shared.queue ++ r ∷ []))
      → Sound f w
      → Leads (push p q r w)
  unfolding push try_push
  push-Sound w p q r e same g s = elim (Bool-cases (ltb (length w.shared.queue) queue_capacity)) [
    | inl room ↦ rw room (record {
      apart = Apart-alike f i q w.shared.pool.taken (same ∙ ap address (sym e)) s.apart;
      roads = g s.roads;
    })
    | inr full ↦ rw full (stays w p e s)
  ]

  -- What the call of `getNewAddress` keeps of the addresses that are taken.
  given :
      (w : World) (r : Outcome ℕ × AddressPool)
      → allot check rounds w.shared.pool ≡ some r
      → (b : ℕ) → contains b w.shared.pool.taken ≡ true
      → Gives b r
  given w r q b h = subst (GivesIf b) q (allot-Gives check b rounds w.shared.pool h)

  refused :
      (w : World) (o : Outcome ℕ) (p : AddressPool)
      → f i ≡ outside
      → Sound f w
      → allot check rounds w.shared.pool ≡ some (o, p)
      → Leads (outside, record w { shared = record w.shared { pool = p } })
  refused w o p e s q = record {
    apart =
        Apart-more (moved f i outside) w.shared.pool.taken p.taken
          (λ b h. (given w (o, p) q b h).stays)
          (Apart-alike f i outside w.shared.pool.taken (ap address (sym e)) s.apart);
    roads = Routed-alike f i outside w.router w.shared.queue (ap entry (sym e)) s.roads;
  }

  taken-Sound :
      (w : World)
      → f i ≡ outside
      → Sound f w
      → (x : Option (Outcome ℕ × AddressPool)) → allot check rounds w.shared.pool ≡ x
      → Leads (taken x w)
  unfolding taken address entry
  taken-Sound w e s none q = stays w outside e s
  taken-Sound w e s (some (throw k, p)) q = refused w (throw k) p e s q
  taken-Sound w e s (some (abort m, p)) q = refused w (abort m) p e s q
  taken-Sound w e s (some (unfinished, p)) q = refused w unfinished p e s q
  taken-Sound w e s (some (ok a, p)) q = record {
    apart =
        Apart-takes f i (holds a) a w.shared.pool.taken p.taken refl
          (allot_takes check rounds w.shared.pool q)
          (λ b h. let g = given w (ok a, p) q b h in (g.stays, g.other a refl)) s.apart;
    roads = Routed-alike f i (holds a) w.router w.shared.queue (ap entry (sym e)) s.roads;
  }

  route-Sound : (w : World) (p : Stage) → f i ≡ p → Sound f w → Leads (p, route w)
  unfolding route
  route-Sound w p e s =
      rw (route, empty_queue-apply_all w.router s.roads.later w.shared.queue s.roads.ends)
        (record {
          apart = Apart-alike f i p w.shared.pool.taken (ap address (sym e)) s.apart;
          roads =
              Routed-alike f i p s.roads.later [] (ap entry (sym e))
                (Routed-empties f i p w.router w.shared.queue s.roads);
        })

  releases-Sound :
      (w : World) (a : ℕ)
      → f i ≡ unrouted a
      → Sound f w
      → Leads (outside, record w { shared = record w.shared { pool = release a w.shared.pool } })
  unfolding release address entry
  releases-Sound w a e s = record {
    apart = Apart-releases f i outside a w.shared.pool.taken refl (ap address e) s.apart;
    roads = Routed-alike f i outside w.router w.shared.queue (ap entry (sym e)) s.roads;
  }

  registers-Sound :
      (w : World) (a : ℕ) (v : Peer)
      → f i ≡ holds a
      → Sound f w
      → Leads (push (holds a) (routed a v) (addition a v) w)
  unfolding address entry
  registers-Sound w a v e s =
      push-Sound w (holds a) (routed a v) (addition a v) e refl
        (Routed-adds f i (routed a v) a v w.router w.shared.queue refl (ap entry e) nobody_else) s
    where
      nobody_else : Unasked f a
      nobody_else j u q =
          let same = alone w a (ap address e) s j u q in
          let at_i : entry (f i) ≡ some (a, u) =
            subst (λ k. entry (f k) ≡ some (a, u)) (sym same) q in
          clash (sym (ap entry e) ∙ at_i)
        where
          clash : Path (Option (ℕ × Peer)) none (some (a, u)) → ⊥
          clash k = cc

  leaves-Sound :
      (w : World) (a : ℕ) (v : Peer)
      → f i ≡ routed a v
      → Sound f w
      → Leads (push (routed a v) (unrouted a) (removal a v) w)
  unfolding address entry
  leaves-Sound w a v e s =
      push-Sound w (routed a v) (unrouted a) (removal a v) e refl
        (Routed-removes f i (unrouted a) a v v w.router w.shared.queue refl (ap entry e)
          (alone w a (ap address e) s))
        s

  after :
      (w : World) (a : Act) (p : Stage)
      → NoFailure a
      → f i ≡ p
      → Sound f w
      → Leads (next check a p w)
  unfolding next NoFailure
  after w takes outside n e s = taken-Sound w e s (allot check rounds w.shared.pool) refl
  after w takes (holds a) n e s = stays w (holds a) e s
  after w takes (routed a v) n e s = stays w (routed a v) e s
  after w takes (unrouted a) n e s = stays w (unrouted a) e s
  after w (registers v) outside n e s = stays w outside e s
  after w (registers v) (holds a) n e s = registers-Sound w a v e s
  after w (registers v) (routed a u) n e s = stays w (routed a u) e s
  after w (registers v) (unrouted a) n e s = stays w (unrouted a) e s
  after w leaves outside n e s = stays w outside e s
  after w leaves (holds a) n e s = stays w (holds a) e s
  after w leaves (routed a v) n e s = leaves-Sound w a v e s
  after w leaves (unrouted a) n e s = stays w (unrouted a) e s
  after w (fails v) p n e s = absurd n
  after w releases outside n e s = stays w outside e s
  after w releases (holds a) n e s = stays w (holds a) e s
  after w releases (routed a v) n e s = stays w (routed a v) e s
  after w releases (unrouted a) n e s = releases-Sound w a e s
  after w routes p n e s = route-Sound w p e s

pub run-Sound :
    (check : ℕ → Outcome (Unit {0})) (acts : List (ℕ × Act)) (s : System Stage World)
    → NoFailures acts
    → Sound s.place s.shared
    → let t = run (next check) s acts in Sound t.place t.shared
unfolding run step moved NoFailures
run-Sound check [] s n h = h
run-Sound check ((i, a) ∷ acts) s n h =
    run-Sound check acts (step (next check) s (i, a)) n.1
      (after check s.place i s.shared a (s.place i) n.0 refl h)
