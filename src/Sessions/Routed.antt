-- ===== src/Sessions/Routed.antt =====
-- The routes of the sessions, when one of them asks to add its own or to remove it, and when the
-- queue of requests is emptied.
use vpverk.Base.{
  ℕ, ◌≡◌, ◌≢◌, refl, sym, ap, subst, ◌∙◌, true, false, Option, none, some, List, [], ◌∷◌, ◌++◌, ◌⊎◌,
  inl, inr, arith,
}
use native.Mathlib.Decide.{ℕ_discrete}
use vpverk.Router.{Peer, Route, Router, lookup, registered, erase, apply}
use vpverk.Router.Counts.{registered-erase}
use vpverk.Sessions.{Stage, outside, holds, routed, unrouted, addition, removal}
use vpverk.Schedule.Places.{moved, moved_here, moved_there, moved_alike}
use vpverk.Sessions.Applies.{apply_all, apply_all-append, lookup-registered, lookup-erase}

-- The route that a session has asked for.
unfoldable pub entry : Stage → Option (ℕ × Peer)
entry outside = none
entry (holds a) = none
entry (routed a v) = some (a, v)
entry (unrouted a) = none

-- A session has asked for the route that `m` has at the address `a`.
abbrev Asked : (ℕ → Stage) → Router → ℕ → Type 0
Asked f m a = (i : ℕ) × (v : Peer) × (entry (f i) ≡ some (a, v)) × (lookup a m ≡ some v)

-- Nobody has asked for a route at the address `a`.
abbrev pub Unasked : (ℕ → Stage) → ℕ → Type 0
Unasked f a = (i : ℕ) (v : Peer) → entry (f i) ≢ some (a, v)

-- At the address `a` the router `m` has what the session there has asked for.
abbrev pub Accounts : (ℕ → Stage) → Router → ℕ → Type 0
Accounts f m a = ((registered a m ≡ false) × Unasked f a) ⊎ Asked f m a

-- The requests can be carried out in turn, and the router has all the routes after that.
pub record Routed (f : ℕ → Stage) (m : Router) (queue : List Route) : Type 0 where
  pub later : Router
  pub ends : apply_all m queue ≡ some later
  pub account : (a : ℕ) → Accounts f later a

module _ (f : ℕ → Stage) (i : ℕ) (h : Stage) where
  pub Routed-alike :
      (m : Router) (queue : List Route)
      → entry h ≡ entry (f i)
      → Routed f m queue
      → Routed (moved f i h) m queue
  Routed-alike m queue e s = record { later = s.later; ends = s.ends; account = account }
    where
      account : (a : ℕ) → Accounts (moved f i h) s.later a
      account a = elim (s.account a) [
        | inl (r, no_one) ↦ inl (r, λ j v q. no_one j v (sym (moved_alike entry f i j h e) ∙ q))
        | inr (j, v, q, l) ↦ inr (j, v, moved_alike entry f i j h e ∙ q, l)
      ]

  there : (j : ℕ) → i ≢ j → entry (moved f i h j) ≡ entry (f j)
  there j ne = ap entry (moved_there f i j h ne)

  -- At another address than the one that the session asks for, before or after.
  elsewhere :
      (b : ℕ) (m n : Router)
      → ((v : Peer) → entry h ≢ some (b, v))
      → ((v : Peer) → entry (f i) ≢ some (b, v))
      → registered b n ≡ registered b m
      → lookup b n ≡ lookup b m
      → Accounts f m b
      → Accounts (moved f i h) n b
  elsewhere b m n after before r l (inl (g, no_one)) = inl (r ∙ g, none_asks)
    where
      none_asks : (j : ℕ) (v : Peer) → entry (moved f i h j) ≢ some (b, v)
      none_asks j v = elim (ℕ_discrete i j) [
        | yes same ↦ λ q. after v (
            sym (ap entry (moved_here f i h))
            ∙ subst (λ k. entry (moved f i h k) ≡ some (b, v)) (sym same) q)
        | no ne ↦ λ q. no_one j v (sym (there j ne) ∙ q)
      ]
  elsewhere b m n after before r l (inr (j, v, q, k)) =
      inr (j, v, there j (λ same. before v (ap (λ n. entry (f n)) same ∙ q)) ∙ q, l ∙ k)

  some_other :
      (a b : ℕ) (u v : Peer) → a ≢ b → Path (Option (ℕ × Peer)) (some (a, u)) (some (b, v)) → ⊥
  some_other a b u v ne e = ne (cc)

  is_none : (b : ℕ) (v : Peer) (x : Option (ℕ × Peer)) → x ≡ none → x ≢ some (b, v)
  is_none b v x e = λ q. clash (sym e ∙ q)
    where
      clash : Path (Option (ℕ × Peer)) none (some (b, v)) → ⊥
      clash k = cc

  is_other :
      (a b : ℕ) (u v : Peer) (x : Option (ℕ × Peer)) → a ≢ b → x ≡ some (a, u) → x ≢ some (b, v)
  is_other a b u v x ne e = λ q. some_other a b u v ne (sym e ∙ q)

  -- The session asks to add its route, at an address for which nobody has.
  pub Routed-adds :
      (a : ℕ) (v : Peer) (m : Router) (queue : List Route)
      → entry h ≡ some (a, v)
      → entry (f i) ≡ none
      → Unasked f a
      → Routed f m queue
      → Routed (moved f i h) m (queue ++ addition a v ∷ [])
  unfolding apply lookup registered
  Routed-adds a v m queue e g alone s = record {
    later = (a, v) ∷ s.later;
    ends =
        apply_all-append m s.later ((a, v) ∷ s.later) queue (addition a v) s.ends
          (rw (free (s.account a)) refl);
    account = account;
  }
    where
      free : Accounts f s.later a → registered a s.later ≡ false
      free (inl (r, _)) = r
      free (inr (j, u, q, l)) = absurd (alone j u q)

      account : (b : ℕ) → Accounts (moved f i h) ((a, v) ∷ s.later) b
      account b = elim (ℕ_discrete a b) [
        | yes same ↦
            subst (Accounts (moved f i h) ((a, v) ∷ s.later)) same
              (inr (i, v, ap entry (moved_here f i h) ∙ e, ground arith))
        | no ne ↦
            elsewhere b s.later ((a, v) ∷ s.later) (λ u. is_other a b v u (entry h) ne e)
              (λ u. is_none b u (entry (f i)) g) (ground arith) (ground arith) (s.account b)
      ]

  -- The session asks to remove its route.
  pub Routed-removes :
      (a : ℕ) (v u : Peer) (m : Router) (queue : List Route)
      → entry h ≡ none
      → entry (f i) ≡ some (a, v)
      → ((j : ℕ) (w : Peer) → entry (f j) ≡ some (a, w) → i ≡ j)
      → Routed f m queue
      → Routed (moved f i h) m (queue ++ removal a u ∷ [])
  unfolding apply
  Routed-removes a v u m queue e g alone s = record {
    later = erase a s.later;
    ends =
        apply_all-append m s.later (erase a s.later) queue (removal a u) s.ends
          (rw (there_now (s.account a)) refl);
    account = account;
  }
    where
      there_now : Accounts f s.later a → registered a s.later ≡ true
      there_now (inl (_, no_one)) = absurd (no_one i v g)
      there_now (inr (j, w, q, l)) = lookup-registered a w s.later l

      account : (b : ℕ) → Accounts (moved f i h) (erase a s.later) b
      account b = elim (ℕ_discrete a b) [
        | yes same ↦
            subst (Accounts (moved f i h) (erase a s.later)) same
              (inl (ground (arith, registered-erase a a s.later), gone))
        | no ne ↦
            elsewhere b s.later (erase a s.later) (λ w. is_none b w (entry h) e)
              (λ w. is_other a b v w (entry (f i)) ne g)
              (ground (arith, registered-erase a b s.later))
              (lookup-erase a b s.later (λ k. ne (sym k))) (s.account b)
      ]
        where
          gone : Unasked (moved f i h) a
          gone j w = elim (ℕ_discrete i j) [
            | yes same ↦
                is_none a w (entry (moved f i h j))
                  (subst (λ k. entry (moved f i h k) ≡ none) same (ap entry (moved_here f i h) ∙ e))
            | no no_j ↦ λ q. no_j (alone j w (sym (there j no_j) ∙ q))
          ]

  -- The queue is emptied.
  pub Routed-empties :
      (m : Router) (queue : List Route) (s : Routed f m queue) → Routed f s.later []
  unfolding apply_all
  Routed-empties m queue s = record { later = s.later; ends = refl; account = s.account }
