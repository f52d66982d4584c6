-- ===== src/Sessions/Applies.antt =====
-- Requests that are carried out one after the other, as they come (`emptyQueue`,
-- src/server/contexts/sessionscontrol.cpp).
use vpverk.Base.{
  ℕ, ◌≡◌, ◌≢◌, refl, sym, ◌∙◌, true, false, Option, none, some, List, [], ◌∷◌, ◌++◌, map, arith,
}
use vpverk.Router.{
  Peer, Route, Router, lookup, registered, erase, apply, drain, settle, empty_queue,
}

-- All of them are carried out, in turn.
unfoldable pub apply_all : Router → List Route → Option Router
apply_all m [] = some m
apply_all m (r ∷ rs) = elim (apply m r) [ none ↦ none | some n ↦ apply_all n rs ]

pub apply_all-append :
    (m n o : Router) (rs : List Route) (r : Route)
    → apply_all m rs ≡ some n
    → apply n r ≡ some o
    → apply_all m (rs ++ r ∷ []) ≡ some o
unfolding apply_all
apply_all-append m n o [] r e f = let same : m ≡ n = ground arith in rw (apply_all, same, f) refl
apply_all-append m n o (x ∷ rs) r e f = go (apply m x) (λ k q. apply_all-append k n o rs r q f) e
  where
    go :
        (y : Option Router)
        → ((k : Router) → apply_all k rs ≡ some n → apply_all k (rs ++ r ∷ []) ≡ some o)
        → (elim y [ none ↦ none | some k ↦ apply_all k rs ]) ≡ some n
        → (elim y [ none ↦ none | some k ↦ apply_all k (rs ++ r ∷ []) ]) ≡ some o
    go none again q = absurd (ground arith)
    go (some k) again q = again k q

-- Requests that can all be carried out in turn are, and none is dropped.
drain-apply_all :
    (m n : Router) (rs : List Route) → apply_all m rs ≡ some n → drain (map some rs) m [] ≡ (n, [])
unfolding apply_all drain
drain-apply_all m n [] e = let same : m ≡ n = ground arith in rw same refl
drain-apply_all m n (r ∷ rs) e = go (apply m r) (λ k q. drain-apply_all k n rs q) e
  where
    go :
        (y : Option Router)
        → ((k : Router) → apply_all k rs ≡ some n → drain (map some rs) k [] ≡ (n, []))
        → (elim y [ none ↦ none | some k ↦ apply_all k rs ]) ≡ some n
        → (elim y [ some k ↦ drain (map some rs) k [] | none ↦ drain (map some rs) m (r ∷ []) ])
          ≡ (n, [])
    go none again q = absurd (ground arith)
    go (some k) again q = again k q

pub empty_queue-apply_all :
    (m n : Router) (rs : List Route)
    → apply_all m rs ≡ some n
    → empty_queue (map some rs) m ≡ some (n, [])
unfolding empty_queue settle
empty_queue-apply_all m n rs e = rw (empty_queue, drain-apply_all m n rs e) refl

pub lookup-registered :
    (a : ℕ) (v : Peer) (m : Router) → lookup a m ≡ some v → registered a m ≡ true
unfolding lookup registered
lookup-registered a v [] e = absurd (ground arith)
lookup-registered a v ((b, u) ∷ m) e = ground (arith, lookup-registered a v m)

pub lookup-erase : (a b : ℕ) (m : Router) → b ≢ a → lookup b (erase a m) ≡ lookup b m
unfolding lookup erase
lookup-erase a b [] ne = refl
lookup-erase a b ((c, u) ∷ m) ne = ground (arith, lookup-erase a b m ne)

pub registered-none :
    (a : ℕ) (v : Peer) (m : Router) → registered a m ≡ false → lookup a m ≡ some v → ⊥
registered-none a v m h e = clash (sym h ∙ lookup-registered a v m e)
  where
    clash : false ≡ true → ⊥
    clash q = cc
