-- ===== src/Lifecycle/Tests.antt =====
-- The theorems on sessions over the socket, the cipher and the keys in a box.
use vpverk.Base.{contains, ◌≡◌, refl, true, false, none, some, [], ◌∷◌, replicate}
use vpverk.Effect.{ok}
use vpverk.Net.Wire.{wire}
use vpverk.Aes.Box.{box}
use vpverk.Rsa.{RsaKey, private_key}
use vpverk.Rsa.Box.{box_key}
use vpverk.Settings.{SettingsSnapshot}
use vpverk.Connection.{Connection}
use vpverk.Lifecycle.{Shared, Life, start_connection}
use vpverk.Lifecycle.Keeps.{start_connection-keeps}
use vpverk.Lifecycle.Whole.{Ends, start_connection-Ends}

-- A client that sends a size, a text of 256 bytes, and the login 66 after its size.
abbrev caller : Connection wire
caller = record {
  closed = false;
  write_locked = false;
  read_locked = false;
  sock = record { waiting = 0 ∷ 1 ∷ 0 ∷ 0 ∷ replicate 256 7; sent = []; received = [] };
}

abbrev alone : Connection wire → Connection wire
alone c = c

-- A key that decrypts to 64 bytes.
abbrev short_key : RsaKey
short_key = record {
  key_type = private_key;
  key = record box_key { decrypt_size = λ y. some 64; decrypt_text = λ y. some (replicate 64 9) };
}

abbrev settings : SettingsSnapshot
settings = record {
  allowed_logins = (66 ∷ []) ∷ [];
  private_key = some short_key;
  port = 1;
  max_alive_time = 2;
}

abbrev born : Life box wire
born = record {
  con = caller;
  shared = record { pool = record { counter = 1; taken = [] }; queue = [] };
  assigned = none;
  written = [];
  deeds = [];
}

start_connection-Ends_example : Ends box wire (
    start_connection box wire
      (λ s. s)
      (λ a. ok tt)
      alone
      4
      settings
      true
      (record { con = 7; aes = none })
      2
      born)
start_connection-Ends_example =
    start_connection-Ends box wire (λ s. s) (λ a. ok tt) alone 4 settings true
      (record { con = 7; aes = none }) 2 born refl refl

-- Others take the address 5, while another session has 9.
abbrev others : Shared → Shared
others s = record s { pool = record s.pool { taken = 5 ∷ s.pool.taken } }

start_connection-keeps_example :
    contains 9
      (start_connection box wire others
        (λ a. ok tt)
        alone
        4
        settings
        true
        (record { con = 7; aes = none })
        2
        (record born {
          shared = record { pool = record { counter = 1; taken = 9 ∷ [] }; queue = [] };
        })).1.shared.pool.taken
    ≡ true
unfolding contains
start_connection-keeps_example =
    start_connection-keeps box wire 9 others (λ s h. h) (λ a. ok tt) alone 4 settings true
      (record { con = 7; aes = none }) 2
      (record born {
        shared = record { pool = record { counter = 1; taken = 9 ∷ [] }; queue = [] };
      })
      refl refl
