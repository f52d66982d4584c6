-- ===== src/Net/Wire.antt =====
-- A socket in a box, which shows that the laws of `Socket` can be met: it sends up to three bytes
-- at a time, hands over up to two of those that wait, and reports `eof` when none do.
use vpverk.Base.{
  ℕ, ◌≤◌, ◌≡◌, refl, min, true, Option, none, some, List, [], ◌∷◌, ◌++◌, length, take, drop,
  replicate, ◌-◌, length-take, arith,
}
use vpverk.Effect.{ErrorCode, would_block, eof, Expected, value, unexpected}
use vpverk.Net.Tcp.{Socket}

pub record Wire : Type 0 where
  pub waiting : List ℕ
  pub sent : List ℕ
  pub received : List ℕ

abbrev wire_peek : Wire → Option ErrorCode × Wire
wire_peek w = elim w.waiting [ [] ↦ (some would_block, w) | x ∷ xs ↦ (none, w) ]

abbrev wire_write : List ℕ → Wire → Expected ℕ × Wire
wire_write b w = (value (min 3 (length b)), record w { sent = w.sent ++ take (min 3 (length b)) b })

abbrev wire_read : ℕ → Wire → Expected (List ℕ) × Wire
wire_read n w = elim w.waiting [
  | [] ↦ (unexpected eof, w)
  | x ∷ xs ↦ (
    value (take (min n 2) w.waiting),
    record w {
      waiting = drop (min n 2) w.waiting;
      received = w.received ++ take (min n 2) w.waiting;
    },
  )
]

pub peek_law :
    (w : Wire) → ((wire_peek w).1.sent ≡ w.sent) × ((wire_peek w).1.received ≡ w.received)
peek_law w = ground arith

pub write_law :
    (b : List ℕ) (w t : Wire) (n : ℕ)
    → 1 ≤ length b
    → wire_write b w ≡ (value n, t)
    → (1 ≤ n) × (n ≤ length b) × (t.sent ≡ w.sent ++ take n b) × (t.received ≡ w.received)
write_law b w t n h e = ground arith

pub write_fails_law :
    (b : List ℕ) (w t : Wire) (c : ErrorCode)
    → wire_write b w ≡ (unexpected c, t)
    → (t.sent ≡ w.sent) × (t.received ≡ w.received)
write_fails_law b w t c e = ground arith

pub read_law :
    (n : ℕ) (w t : Wire) (b : List ℕ)
    → 1 ≤ n
    → wire_read n w ≡ (value b, t)
    → (1 ≤ length b) × (length b ≤ n) × (t.received ≡ w.received ++ b) × (t.sent ≡ w.sent)
read_law n w t b h e = ground (arith, length-take (min n 2) w.waiting)

pub read_fails_law :
    (n : ℕ) (w t : Wire) (c : ErrorCode)
    → wire_read n w ≡ (unexpected c, t)
    → (t.received ≡ w.received) × (t.sent ≡ w.sent)
read_fails_law n w t c e = ground arith

abbrev pub wire : Socket
wire = record {
  State = Wire;
  is_open = λ w. true;
  peek = wire_peek;
  write_some = wire_write;
  read_some = wire_read;
  wait_read = λ w. (none, w);
  available = λ w. length w.waiting;
  shutdown = λ w. (none, w);
  drain_some = λ w. (length w.waiting, record w { waiting = [] });
  peeked = λ n w. take n w.waiting ++ replicate (n - length w.waiting) 0;
  close = λ w. (none, w);
  sent = λ w. w.sent;
  received = λ w. w.received;
  peek_moves = peek_law;
  write_moves = write_law;
  write_fails = write_fails_law;
  read_moves = read_law;
  read_fails = read_fails_law;
  shutdown_moves = λ w. refl;
  drain_moves = λ w. refl;
  drain_less = λ w h. h;
  close_moves = λ w. refl;
}
