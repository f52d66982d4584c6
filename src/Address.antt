-- ===== src/Address.antt =====
-- `SessionsControl::getNewAddress` and the release of an address in `startConnection`
-- (src/server/contexts/sessionscontrol.cpp). Each call runs under `unique_address_mutex`, so calls
-- are taken one after another.
mod Bytes
mod Cycle
pub mod Fresh
pub mod Gives
pub mod History
pub mod Probe
mod Tests
use Prim.Native.Nat.{bit_or}
use vpverk.Base.{
  ℕ, zero, suc, ◌+◌, ◌-◌, ◌*◌, ◌/◌, ◌%◌, ◌^◌, String, Bool, ◌&&◌, Option, none, some, List, ◌∷◌,
  ◌==◌, if◌then◌else◌, contains, without,
}
use vpverk.Effect.{Outcome, ok, throw, abort, unfinished}

-- `unique_address_counter` (uint16_t) and `unique_address_set`
pub record AddressPool : Type 0 where
  pub counter : ℕ
  pub taken : List ℕ

-- `address_begin`, 10.123.0.0
abbrev pub address_begin : ℕ
address_begin = 10 * 2 ^ 24 + 123 * 2 ^ 16

abbrev max_counter : ℕ
max_counter = 2 ^ 16 - 1

-- `++unique_address_counter`, and the wrap to 2
unfoldable pub next_counter : ℕ → ℕ
next_counter c = let n = (c + 1) % 2 ^ 16 in if n == max_counter then 2 else n

unfoldable pub address_of : ℕ → ℕ
address_of c = bit_or address_begin c

-- Byte `i` of a number in memory, the lowest first.
abbrev pub byte_at : ℕ → ℕ → ℕ
byte_at i a = a / 2 ^ (8 * i) % 256

-- The check of the bytes of a new address: it picks a text and hands it to `cuabort`.
pub probe : ℕ → Outcome (Unit {0})
probe a = abort (if byte_at 3 a == 10 && byte_at 2 a == 123 then "like this" else "not like this")

-- The do-while loop, with the check as a parameter. `none`: the fuel ran out.
unfoldable pub allot : (ℕ → Outcome (Unit {0})) → ℕ → AddressPool → Option (Outcome ℕ × AddressPool)
allot check zero p = none
allot check (suc fuel) p =
    let c = next_counter p.counter in
    let a = address_of c in
    let q : AddressPool = record p { counter = c } in
    let rest = allot check fuel q in
    elim (check a) [
      | ok _ ↦ if contains a p.taken then rest else some (ok a, record q { taken = a ∷ p.taken })
      | throw e ↦ some (throw e, q)
      | abort m ↦ some (abort m, q)
      | unfinished ↦ none
    ]

-- There are 65533 host parts, 2 to 65534: a round of them is fuel enough.
abbrev pub rounds : ℕ
rounds = 65533

pub get_new_address : AddressPool → Option (Outcome ℕ × AddressPool)
unfolding allot
get_new_address p = allot probe rounds p

-- `unique_address_set.erase(*assigned_address)`
unfoldable pub release : ℕ → AddressPool → AddressPool
release a p = record p { taken = without a p.taken }
