-- ===== src/Client/Tests.antt =====
-- The theorems on the client over the socket and the cipher in a box.
use vpverk.Base.{none, replicate, ℕ, ◌≡◌, refl, arith, true, false, List, [], ◌∷◌, ◌++◌, take, ◌↔◌}
use vpverk.Effect.Post.{Post}
use vpverk.Net.Wire.{wire}
use vpverk.Aes.{AesSession}
use vpverk.Aes.Box.{box}
use vpverk.Aes.Stream.{Follows}
use vpverk.Connection.{Connection}
use vpverk.Session.{Link, authenticate_user, read_clear, read_or_throw, clear_or_refuse}
use vpverk.Settings.{less, binary_search, lower_bound}
use vpverk.Settings.Order.{Occurs}
use vpverk.Client.{
  End, start_socket_read, read_block_size, clear_size, size_or_error, same_bytes, read_all,
}
use vpverk.Client.Start.{Given, Client, read_address}
use vpverk.Aes
use vpverk.Net.{read_some, read_some_unreliable, read_loop, reliable_is_open, verdict}
use vpverk.Client.Silence.{Sized, Refused, read_block_size-Sized}
use vpverk.Client.Downlink.{Aborts, start_socket_read-Aborts}
use vpverk.Client.Login.{authenticate_user-send_login}
use vpverk.Client.Address.{read_address-ip_message}

abbrev alone : Connection wire → Connection wire
alone c = c

abbrev aes_end : AesSession box
aes_end = record { encrypt_ctx = 9; decrypt_ctx = 9 }

-- The start of an error of the server, and a packet of two bytes
abbrev end : List ℕ → End box wire
end bytes = record {
  sock = record { waiting = bytes; sent = []; received = [] };
  aes = aes_end;
  written = [];
}

abbrev errors : List ℕ
errors = 255 ∷ 255 ∷ 255 ∷ 255 ∷ 95 ∷ 69 ∷ 114 ∷ 114 ∷ 111 ∷ 114 ∷ 58 ∷ 32 ∷ 110 ∷ 111 ∷ []

read_block_size-Sized_example :
    Post
      (Sized box wire false (end errors))
      (Refused box wire (end errors))
      (read_block_size box wire false (end errors))
read_block_size-Sized_example = read_block_size-Sized box wire false (end errors)

start_socket_read-Aborts_example :
    Aborts box wire
      (end (11 ∷ 10 ∷ 11 ∷ 12 ∷ 80 ∷ 81 ∷ []))
      (start_socket_read box wire 3 (end (11 ∷ 10 ∷ 11 ∷ 12 ∷ 80 ∷ 81 ∷ [])))
start_socket_read-Aborts_example =
    start_socket_read-Aborts box wire 2 (end (11 ∷ 10 ∷ 11 ∷ 12 ∷ 80 ∷ 81 ∷ []))

-- What the client sends for the login 66, twice, waits at the server.
abbrev sent_login : List ℕ
sent_login = 9 ∷ 10 ∷ 11 ∷ 12 ∷ 79 ∷ []

abbrev guest : Link box wire
guest = record {
  con = record {
    closed = false;
    write_locked = false;
    read_locked = false;
    sock = record { waiting = sent_login ++ sent_login; sent = []; received = [] };
  };
  aes = aes_end;
}

-- The server's end once it has read the four zeros.
abbrev answered : Link box wire
answered = record {
  con = record guest.con {
    sock = record { waiting = 79 ∷ sent_login; sent = []; received = 9 ∷ 10 ∷ 11 ∷ 12 ∷ [] };
  };
  aes = record { encrypt_ctx = 9; decrypt_ctx = 13 };
}

authenticate_user-send_login_example :
    ((false ≡ true) ↔ Occurs [] ((66 ∷ []) ∷ [])) × ((9 ∷ 10 ∷ 11 ∷ 12 ∷ []) ≡ take 4 sent_login)
unfolding authenticate_user Aes.encrypt Aes.decrypt read_clear read_or_throw clear_or_refuse
    read_some read_some_unreliable read_loop reliable_is_open verdict less binary_search lower_bound
authenticate_user-send_login_example =
    authenticate_user-send_login box wire alone 3 ((66 ∷ []) ∷ []) guest answered aes_end
      (record { encrypt_ctx = 14; decrypt_ctx = 9 }) (66 ∷ []) sent_login (9 ∷ 10 ∷ 11 ∷ 12 ∷ [])
      (79 ∷ sent_login) false (omega arith) (tt, tt) refl refl refl refl refl refl refl

-- The message of the address 7 waits at the client.
abbrev addressed : End box wire
addressed = end (13 ∷ 10 ∷ 11 ∷ 12 ∷ 20 ∷ 14 ∷ 15 ∷ 16 ∷ [])

read_address-ip_message_example :
    (◌≡◌ {A = ℕ} 7 7)
    × Follows box
        (record { encrypt_ctx = 17; decrypt_ctx = 9 })
        (record { encrypt_ctx = 9; decrypt_ctx = 17 })
unfolding read_address read_block_size clear_size size_or_error same_bytes read_all Aes.encrypt
    Aes.decrypt read_some read_some_unreliable read_loop reliable_is_open verdict
read_address-ip_message_example =
    read_address-ip_message box wire alone 3 addressed
      (record {
        sock = record {
          waiting = [];
          sent = [];
          received = 13 ∷ 10 ∷ 11 ∷ 12 ∷ 20 ∷ 14 ∷ 15 ∷ 16 ∷ [];
        };
        aes = record { encrypt_ctx = 9; decrypt_ctx = 17 };
        written = [];
      })
      aes_end (record { encrypt_ctx = 17; decrypt_ctx = 9 }) 7 7
      (13 ∷ 10 ∷ 11 ∷ 12 ∷ 20 ∷ 14 ∷ 15 ∷ 16 ∷ []) 8 (omega arith) refl refl refl refl

-- What the start of the client gets
abbrev given : Given
given = record {
  connect_error = none;
  opened = true;
  parsed = none;
  key = replicate 32 1;
  iv1 = replicate 16 5;
  iv2 = replicate 16 9;
  allocated = true;
  writable = true;
}

abbrev client : Client box wire
client = record { end = end errors; host = record { ran = []; tun_ip = none } }
