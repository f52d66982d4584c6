-- ===== src/Session/Tests.antt =====
-- The session theorems over the socket, the cipher and the keys in a box.
use vpverk.Base.{refl, true, false, some, [], ◌∷◌, replicate}
use vpverk.Effect.Post.{Post}
use vpverk.Net.Wire.{wire}
use vpverk.Aes.{AesSession, create}
use vpverk.Aes.Box.{box}
use vpverk.Aes.Stream.{Paired}
use vpverk.Rsa.{RsaKey, private_key}
use vpverk.Rsa.Box.{box_key, box-IsPair}
use vpverk.Settings.{less}
use vpverk.Connection.{Connection}
use vpverk.Session.{Link, session_from, client_session, exchange_aes_key, authenticate_user}
use vpverk.Session.Exchange.{Agreed, Fails, exchange_aes_key-Agreed}
use vpverk.Session.Keys.{client_session-Paired, exchange_aes_key_throws}
use vpverk.Session.Access.{Answered, FailsLink, authenticate_user-Answered}
use vpverk.Session.Salt.{add_salt}

-- A client that sends the size 256 and a text of 256 bytes.
abbrev caller : Connection wire
caller = record {
  closed = false;
  write_locked = false;
  read_locked = false;
  sock = record { waiting = 0 ∷ 1 ∷ 0 ∷ 0 ∷ replicate 256 7; sent = []; received = [] };
}

abbrev alone : Connection wire → Connection wire
alone c = c

abbrev server_key : RsaKey
server_key = record { key_type = private_key; key = box_key }

-- A key that decrypts to 64 bytes and reports no more.
abbrev short_key : RsaKey
short_key = record {
  key_type = private_key;
  key = record box_key { decrypt_size = λ y. some 64; decrypt_text = λ y. some (replicate 64 9) };
}

abbrev agreed_end : AesSession box
agreed_end = record { encrypt_ctx = 9; decrypt_ctx = 9 }

exchange_aes_key-Agreed_example :
    Post
      (Agreed box wire alone 3 short_key true caller)
      (Fails box wire caller)
      (exchange_aes_key box wire alone 4 short_key true caller)
exchange_aes_key-Agreed_example =
    exchange_aes_key-Agreed box wire alone 3 short_key true caller refl refl

exchange_aes_key_throws_example :
    Post
      (λ s d. ⊥)
      (Fails box wire caller)
      (exchange_aes_key box wire alone 4 server_key true caller)
exchange_aes_key_throws_example =
    exchange_aes_key_throws box wire alone 3 box_key box_key true caller box-IsPair refl refl

client_session-Paired_example :
    Paired box
      (record { encrypt_ctx = 5; decrypt_ctx = 9 })
      (record { encrypt_ctx = 9; decrypt_ctx = 5 })
unfolding client_session session_from create add_salt
client_session-Paired_example =
    client_session-Paired box true true (replicate 32 1) (replicate 16 5) (replicate 16 9)
      (record { encrypt_ctx = 5; decrypt_ctx = 9 }) (record { encrypt_ctx = 9; decrypt_ctx = 5 })
      refl refl refl refl refl

-- The login 66 waits, after its size, both under the session.
abbrev guest : Link box wire
guest = record {
  con = record caller {
    sock = record { waiting = 10 ∷ 10 ∷ 11 ∷ 12 ∷ 79 ∷ []; sent = []; received = [] };
  };
  aes = agreed_end;
}

authenticate_user-Answered_example :
    Post
      (Answered box wire alone 3 ((5 ∷ []) ∷ (66 ∷ []) ∷ []) guest)
      (FailsLink box wire guest)
      (authenticate_user box wire alone 4 ((5 ∷ []) ∷ (66 ∷ []) ∷ []) guest)
unfolding less
authenticate_user-Answered_example =
    authenticate_user-Answered box wire alone 3 ((5 ∷ []) ∷ (66 ∷ []) ∷ []) guest
      ((refl, tt), (tt, tt)) refl refl
