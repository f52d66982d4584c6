-- ===== src/Router/Bag.antt =====
-- What the queue asks for, with the order of the requests forgotten (`emptyQueue`,
-- src/server/contexts/sessionscontrol.cpp).
use mathlib.Core.Quot
use mathlib.Core.Quot.{Quot}
use mathlib.Core.Bool.{Bool-set}
use vpverk.Base.{
  ℕ, ◌+◌, ◌^◌, ◌<◌, ◌≡◌, refl, sym, ap, ◌∙◌, Bool, Option, some, List, length, ltb, arith,
  Bool-cases, inl, inr,
}
use native.Mathlib.Decide.{dec_lt}
use vpverk.Router.{Route, Router, registered, empty_queue}
use vpverk.Router.Counts.{held, adds, removes, popped}
use vpverk.Router.Balance.{IsBalanced, empty_queue-IsBalanced}

-- Two queues ask as often to add each address, and as often to remove it.
abbrev SameDemand : List Route → List Route → Type 0
SameDemand rs ss = (a : ℕ) → (adds a rs ≡ adds a ss) × (removes a rs ≡ removes a ss)

abbrev Demand : Type 0
Demand = Quot SameDemand

abbrev demand : List Route → Demand
demand rs = Quot.mk rs

-- Whether the address `a` is to be registered after the demand.
abbrev wanted : ℕ → Router → Demand → Bool
wanted a m =
    Quot.lift Bool-set (λ rs. ltb (removes a rs) (held a m + adds a rs))
      (λ rs ss h. rw ((h a).0, (h a).1) refl)

IsBalanced-wanted :
    (a : ℕ) (m : Router) (rs : List Route) (m' : Router) (dropped : List Route)
    → IsBalanced a m rs m' dropped
    → registered a m' ≡ wanted a m (demand rs)
IsBalanced-wanted a m rs m' dropped b =
    elim (Bool-cases (ltb (removes a rs) (held a m + adds a rs))) [
      | inl more ↦ (b.stays (ground arith)).0 ∙ sym more
      | inr less ↦ (b.goes (ground arith)).0 ∙ sym less
    ]

IsBalanced-same :
    (m : Router) (rs ss : List Route) (n n' : Router) (d d' : List Route) (a : ℕ)
    → IsBalanced a m rs n d
    → IsBalanced a m ss n' d'
    → (adds a rs ≡ adds a ss) × (removes a rs ≡ removes a ss)
    → (adds a d ≡ adds a d') × (removes a d ≡ removes a d')
IsBalanced-same m rs ss n n' d d' a b c e = elim (dec_lt (removes a rs) (held a m + adds a rs)) [
  | yes more ↦
      let (p1, p2, p3) = b.stays more in
      let (q1, q2, q3) = c.stays (omega (arith, e.0, e.1)) in (omega (arith, e.0, e.1), omega arith)
  | no less ↦
      let (p1, p2, p3) = b.goes (omega arith) in
      let (q1, q2, q3) = c.goes (omega (arith, e.0, e.1)) in (omega arith, omega (arith, e.0, e.1))
]

-- Two queues that ask as often to add each address and as often to remove it, in whatever order, come to
-- the same: `emptyQueue` returns for both (with fewer than 2 ^ 32 requests), the same
-- addresses are registered after both, those that the demand wants, and the requests dropped make the
-- same demand.
empty_queue-demand :
    (pops pops' : List (Option Route)) (m : Router)
    → length (popped pops) < 2 ^ 32
    → length (popped pops') < 2 ^ 32
    → SameDemand (popped pops) (popped pops')
    → (n n' : Router) × (d d' : List Route) × (empty_queue pops m ≡ some (n, d))
      × (empty_queue pops' m ≡ some (n', d'))
      × ((a : ℕ)
          → (registered a n ≡ wanted a m (demand (popped pops)))
            × (registered a n' ≡ registered a n))
      × (demand d ≡ demand d')
empty_queue-demand pops pops' m s s' e =
    let (n, d, q, b) = empty_queue-IsBalanced pops m s in
    let (n', d', q', b') = empty_queue-IsBalanced pops' m s' in
    (
      n,
      n',
      d,
      d',
      q,
      q',
      λ a. (
        IsBalanced-wanted a m (popped pops) n d (b a),
        IsBalanced-wanted a m (popped pops') n' d' (b' a)
            ∙ ap (wanted a m) (sym (Quot.sound e))
            ∙ sym (IsBalanced-wanted a m (popped pops) n d (b a)),
      ),
      Quot.sound
          (λ a. IsBalanced-same m (popped pops) (popped pops') n n' d d' a (b a) (b' a) (e a)),
    )
