-- ===== src/Address/Cycle.antt =====
-- The counter runs through the host parts 2 to 65534 in turn.
use vpverk.Base.{ℕ, suc, ◌+◌, ◌-◌, ◌%◌, ◌≤◌, ◌<◌, ◌≡◌, ◌≢◌, arith}
use vpverk.Address.{next_counter}

-- The counter of the round after `k` others.
abbrev pub nth_counter : ℕ → ℕ → ℕ
nth_counter c k = (c + k - 1) % 65533 + 2

pub next_counter-eq : (c : ℕ) → 1 ≤ c → c ≤ 65534 → next_counter c ≡ nth_counter c 0
unfolding next_counter
next_counter-eq c l h = ground arith

pub nth_counter_bounds : (c k : ℕ) → (2 ≤ nth_counter c k) × (nth_counter c k ≤ 65534)
nth_counter_bounds c k = omega arith

pub nth_counter-next :
    (c k : ℕ) → 1 ≤ c → c ≤ 65534 → nth_counter (nth_counter c 0) k ≡ nth_counter c (suc k)
nth_counter-next c k l h = omega arith

pub nth_counter_ne : (c j k : ℕ) → 1 ≤ c → j < k → k < 65533 → nth_counter c k ≢ nth_counter c j
nth_counter_ne c j k l h m = omega arith
