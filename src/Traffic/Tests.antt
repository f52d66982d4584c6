-- ===== src/Traffic/Tests.antt =====
-- A packet of one byte over the socket and the cipher in a box.
use vpverk.Base.{ℕ, ◌≤◌, ◌≡◌, refl, arith, true, false, List, [], ◌∷◌}
use vpverk.Net.{read_some, read_some_unreliable, read_loop, reliable_is_open, verdict}
use vpverk.Net.Wire.{wire}
use vpverk.Aes
use vpverk.Aes.{AesSession}
use vpverk.Aes.Box.{box}
use vpverk.Connection.{Connection}
use vpverk.Session.{Link, read_clear, read_or_throw, clear_or_refuse}
use vpverk.Traffic.{Relay, seal, receive, read_part}
use vpverk.Traffic.Sequence.{receives, receives-SealedAll}

abbrev alone : Connection wire → Connection wire
alone c = c

abbrev server : Link box wire
server = record {
  con = record {
    closed = false;
    write_locked = false;
    read_locked = true;
    sock = record { waiting = 10 ∷ 10 ∷ 11 ∷ 12 ∷ 79 ∷ []; sent = []; received = [] };
  };
  aes = record { encrypt_ctx = 1; decrypt_ctx = 9 };
}

abbrev client : AesSession box
client = record { encrypt_ctx = 9; decrypt_ctx = 1 }

-- Two packets of the client, sealed in turn
abbrev stream : List ℕ
stream = 10 ∷ 10 ∷ 11 ∷ 12 ∷ 79 ∷ 16 ∷ 15 ∷ 16 ∷ 17 ∷ 85 ∷ 87 ∷ []

abbrev waiting : Link box wire
waiting = record server {
  con = record server.con { sock = record { waiting = stream; sent = []; received = [] } };
}

-- The link once both are read.
abbrev served : Link box wire
served = record {
  con = record server.con { sock = record { waiting = []; sent = []; received = stream } };
  aes = record { encrypt_ctx = 1; decrypt_ctx = 20 };
}

receives-SealedAll_example :
    (◌≡◌ {A = List (List ℕ)} ((66 ∷ []) ∷ (67 ∷ 68 ∷ []) ∷ []) ((66 ∷ []) ∷ (67 ∷ 68 ∷ []) ∷ []))
    × (2 ≤ 2)
unfolding receives receive seal Aes.encrypt Aes.decrypt read_clear read_or_throw clear_or_refuse
    read_part read_some read_some_unreliable read_loop reliable_is_open verdict
receives-SealedAll_example =
    receives-SealedAll box wire alone 3 2 waiting served ((66 ∷ []) ∷ (67 ∷ 68 ∷ []) ∷ [])
      ((66 ∷ []) ∷ (67 ∷ 68 ∷ []) ∷ []) 1504 client (record { encrypt_ctx = 20; decrypt_ctx = 1 })
      stream [] refl refl refl (omega arith, omega arith, (omega arith, omega arith, tt))
      (
        10 ∷ 10 ∷ 11 ∷ 12 ∷ 79 ∷ [],
        16 ∷ 15 ∷ 16 ∷ 17 ∷ 85 ∷ 87 ∷ [],
        record { encrypt_ctx = 14; decrypt_ctx = 1 },
        refl,
        refl,
        (
          16 ∷ 15 ∷ 16 ∷ 17 ∷ 85 ∷ 87 ∷ [],
          [],
          record { encrypt_ctx = 20; decrypt_ctx = 1 },
          refl,
          refl,
          (refl, refl),
        ),
      )
      refl refl

-- A relay that has read nothing, with its lock free.
abbrev relay : Relay box wire alone 3
relay = record {
  link = record server { con = record server.con { read_locked = false } };
  written = [];
}
