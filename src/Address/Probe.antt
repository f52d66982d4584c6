-- ===== src/Address/Probe.antt =====
-- The check of the bytes that `getNewAddress` makes ends in `cuabort`, whatever it finds.
use vpverk.Base.{ℕ, String, suc, ◌≡◌, arith, some}
use vpverk.Effect.{Outcome, abort}
use vpverk.Address.{AddressPool, next_counter, address_of, probe, byte_at, allot, get_new_address}
use vpverk.Address.Fresh.{IsValid, IsHost, next_address-IsHost}

-- The two bytes that are checked are those of the subnet.
probe-eq : (a : ℕ) → IsHost a → probe a ≡ abort "like this"
unfolding probe
probe-eq a h =
    let e₃ : byte_at 3 a ≡ 10 = omega arith in
    let e₂ : byte_at 2 a ≡ 123 = omega arith in rw (e₃, e₂)

-- A check that aborts ends the loop in its first round.
allot-abort :
    (check : ℕ → Outcome (Unit {0})) (fuel : ℕ) (p : AddressPool) (m : String)
    → check (address_of (next_counter p.counter)) ≡ abort m
    → allot check (suc fuel) p ≡ some (abort m, record p { counter = next_counter p.counter })
unfolding allot
allot-abort check fuel p m e = rw (e, allot)

-- `getNewAddress` never returns: in every state of the pool that can arise, the first round
-- advances the counter, finds the bytes 10 and 123 in the address, and calls `cuabort` with the
-- text for an address that is right; no address is taken.
pub get_new_address_aborts :
    (p : AddressPool)
    → IsValid p
    → get_new_address p ≡ some (abort "like this", record p { counter = next_counter p.counter })
unfolding get_new_address
get_new_address_aborts p v = allot-abort probe 65532 p "like this" (
    probe-eq (address_of (next_counter p.counter))
      (next_address-IsHost p.counter v.started v.small))
