-- ===== src/Address/Tests.antt =====
-- Runs of the address pool at concrete states, and the theorems at them.
use vpverk.Base.{◌⊎◌, ◌≢◌, ℕ, ◌+◌, ◌≡◌, refl, arith, [], ◌∷◌, some, contains}
use vpverk.Effect.{Outcome, ok, abort}
use vpverk.Address.{
  AddressPool, address_begin, next_counter, address_of, allot, rounds, get_new_address,
}
use vpverk.Address.Fresh.{IsHost, IsValid, Allots, ended_by, allot-returns}
use vpverk.Address.Probe.{get_new_address_aborts}

abbrev start : AddressPool
start = record { counter = 1; taken = [] }

-- One session holds 10.123.0.2, and the counter stands before its wrap.
abbrev wrapping : AddressPool
wrapping = record { counter = 65534; taken = (address_begin + 2) ∷ [] }

-- A check that lets every address pass.
abbrev passing : ℕ → Outcome (Unit {0})
passing a = ok tt

wrapping-IsValid : IsValid wrapping
unfolding contains
wrapping-IsValid = record {
  started = omega arith;
  small = omega arith;
  hosts = (omega arith, tt);
  distinct = (refl, tt);
}

allot-start :
    allot passing rounds start
    ≡ some (ok 0x0A7B_0002, record { counter = 2; taken = 0x0A7B_0002 ∷ [] })
unfolding allot next_counter address_of contains
allot-start = refl

-- The counter wraps to 2, finds 10.123.0.2 taken, and goes on to 10.123.0.3.
allot-wrapping :
    allot passing rounds wrapping
    ≡ some (ok 0x0A7B_0003, record { counter = 3; taken = 0x0A7B_0003 ∷ 0x0A7B_0002 ∷ [] })
unfolding allot next_counter address_of contains
allot-wrapping = refl

allot-returns_example :
    ((a : ℕ) × (q : AddressPool) × (allot passing rounds wrapping ≡ some (ok a, q))
      × Allots wrapping a q)
    ⊎ ((a : ℕ) × (q : AddressPool) × IsHost a
        × (passing a ≢ ok tt)
        × (allot passing rounds wrapping ≡ ended_by passing (passing a) q)
        × (q.taken ≡ wrapping.taken))
allot-returns_example = allot-returns passing wrapping wrapping-IsValid (omega arith)

get_new_address_aborts_example :
    get_new_address wrapping ≡ some (abort "like this", record wrapping { counter = 2 })
unfolding next_counter
get_new_address_aborts_example = get_new_address_aborts wrapping wrapping-IsValid
