-- ===== src/Tun/Lock/Tests.antt =====
-- Locks that are moved, given back and assigned.
use vpverk.Base.{ℕ, ◌≡◌, ◌↔◌, refl, true, some, List, [], ◌∷◌}
use vpverk.Tun.Lock.{
  Operation, makes, locks, moves, assigns, destroys, operate, operations, empty, same_pointer,
  pass_on,
}
use vpverk.Tun.Lock.Kept.{nothing_lost, loses, set_iff_held}

-- What `lock` gives is moved to the variable of the caller, while another waits for the flag 5.
abbrev handed : List Operation
handed = locks 0 5 ∷ locks 1 5 ∷ moves 2 0 ∷ destroys 0 ∷ makes 3 ∷ assigns 3 2 ∷ []

set_iff_held_example :
    let s = operations handed empty in
    (s.flag 5 ≡ true) ↔ ((i : ℕ) × ((j : ℕ) → (s.l j ≡ some 5) ↔ (i ≡ j)))
unfolding nothing_lost loses operate operations same_pointer vpverk.Pointers.pass_on
    vpverk.Schedule.Places.moved native.Mathlib.Decide.ℕ_discrete
set_iff_held_example = set_iff_held handed 5 refl
