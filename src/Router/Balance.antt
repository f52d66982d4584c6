-- ===== src/Router/Balance.antt =====
-- What `emptyQueue` comes to at each address, whatever the order of the requests.
use vpverk.Base.{
  ℕ, ◌+◌, ◌^◌, ◌≤◌, ◌<◌, ◌≡◌, refl, true, false, Option, some, List, [], ◌∷◌, length, arith,
  Bool-cases, inl, inr,
}
use vpverk.Router.{Route, Router, registered, apply, drain, empty_queue}
use vpverk.Router.Counts.{held, adds, removes, popped}
use vpverk.Router.Drain.{AllStuck, drain-held, drain-popped, length-drain-le}
use vpverk.Router.Retry.{settle-Ends}

removes_stuck :
    (a : ℕ) (m : Router) (rs : List Route)
    → registered a m ≡ true
    → AllStuck m rs
    → removes a rs ≡ 0
unfolding removes apply
removes_stuck a m [] h s = refl
removes_stuck a m (r ∷ rs) h s = ground (arith, removes_stuck a m rs h s.1)

adds_stuck :
    (a : ℕ) (m : Router) (rs : List Route) → registered a m ≡ false → AllStuck m rs → adds a rs ≡ 0
unfolding adds apply
adds_stuck a m [] h s = refl
adds_stuck a m (r ∷ rs) h s = ground (arith, adds_stuck a m rs h s.1)

-- What is left at the address `a`, when the requests `rs` were made at `m`.
pub record IsBalanced (a : ℕ) (m : Router) (rs : List Route) (m' : Router) (dropped : List Route)
    : Type 0 where
  pub stays :
      removes a rs < held a m + adds a rs
      → (registered a m' ≡ true)
        × (removes a dropped ≡ 0)
        × (removes a rs + 1 + adds a dropped ≡ held a m + adds a rs)
  pub goes :
      held a m + adds a rs ≤ removes a rs
      → (registered a m' ≡ false)
        × (adds a dropped ≡ 0)
        × (held a m + adds a rs + removes a dropped ≡ removes a rs)

IsBalanced-of :
    (a : ℕ) (m : Router) (rs : List Route) (m' : Router) (dropped : List Route)
    → held a m' + removes a rs + adds a dropped ≡ held a m + adds a rs + removes a dropped
    → AllStuck m' dropped
    → IsBalanced a m rs m' dropped
IsBalanced-of a m rs m' dropped e s = elim (Bool-cases (registered a m')) [
  | inl here ↦
      let z = removes_stuck a m' dropped here s in
      let h : held a m' ≡ 1 = rw here in
      record { stays = λ lt. (here, z, omega arith); goes = λ le. absurd (omega arith) }
  | inr gone ↦
      let z = adds_stuck a m' dropped gone s in
      let h : held a m' ≡ 0 = rw gone in
      record { stays = λ lt. absurd (omega arith); goes = λ le. (gone, z, omega arith) }
]

-- `emptyQueue` returns for every sequence of pops (with fewer than 2 ^ 32 requests),
-- and at each address only the numbers of requests count, not their order. If the address was held
-- or added more often than removed, it is registered afterwards, no removal of it is dropped, and
-- the additions dropped are those beyond one. If not, it is not registered afterwards, no addition
-- of it is dropped, and the removals dropped are those in excess.
pub empty_queue-IsBalanced :
    (pops : List (Option Route)) (m : Router)
    → length (popped pops) < 2 ^ 32
    → (m' : Router) × (dropped : List Route) × (empty_queue pops m ≡ some (m', dropped))
      × ((a : ℕ) → IsBalanced a m (popped pops) m' dropped)
unfolding empty_queue adds removes
empty_queue-IsBalanced pops m h =
    let first = (drain pops m []).0 in
    let kept = (drain pops m []).1 in
    let short : length kept ≤ length (popped pops) =
      rw (drain-popped pops m []) (omega (arith, length-drain-le (popped pops) m [])) in
    let (m', dropped, e, s) = settle-Ends first kept (omega arith) in
    (
      m',
      dropped,
      e,
      λ a.
          IsBalanced-of a m (popped pops) m' dropped
            (omega (arith, drain-held a pops m [], s.balance a)) s.stuck,
    )
