-- ===== src/Dispatch/Tests.antt =====
-- A packet on its way to a client, over the socket and the cipher in a box.
use vpverk.Base.{refl, arith, true, false, [], ◌∷◌}
use vpverk.Effect.Post.{Post}
use vpverk.Net.Wire.{wire}
use vpverk.Aes.Box.{box}
use vpverk.Connection.{Connection}
use vpverk.Session.{Link}
use vpverk.Dispatch.{pass_packet}
use vpverk.Dispatch.Pass.{Passed, Shut, pass_packet-Passed}

abbrev alone : Connection wire → Connection wire
alone c = c

-- A client whose write lock is held.
abbrev busy : Link box wire
busy = record {
  con = record {
    closed = false;
    write_locked = true;
    read_locked = false;
    sock = record { waiting = 1 ∷ []; sent = []; received = [] };
  };
  aes = record { encrypt_ctx = 9; decrypt_ctx = 9 };
}

pass_packet-Passed_example :
    Post
      (Passed box wire (69 ∷ 70 ∷ []) busy)
      (Shut box wire)
      (pass_packet box wire alone 4 (69 ∷ 70 ∷ []) busy)
pass_packet-Passed_example =
    pass_packet-Passed box wire alone 3 (69 ∷ 70 ∷ []) busy (omega arith) refl
