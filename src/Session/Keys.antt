-- ===== src/Session/Keys.antt =====
-- The two ends of the key exchange.
use vpverk.Base.{
  take_at, drop_at, all_of, append_cancel, ℕ, suc, ◌≡◌, ◌≢◌, sym, ap, ◌∙◌, String, Bool, false,
  List, ◌++◌, length, take, drop, arith, length-append,
}
use mathlib.Core.List.{append_assoc}
use vpverk.Effect.{value, Outcome, ok}
use vpverk.Effect.Post.{Post, Post-weaken}
use vpverk.Net.{Socket}
use vpverk.Aes.{Cipher, AesSession, create}
use vpverk.Aes.Stream.{Paired, create-Paired}
use vpverk.Rsa.{Checked, good, bad, Pkey, RsaKey, private_key}
use vpverk.Rsa.Pair.{IsPair, decrypt_small}
use vpverk.Connection.{Connection, bytes_of, number_of}
use vpverk.Session.{session_from, client_session, client_input, client_opening, exchange_aes_key}
use vpverk.Session.Salt.{add_salt, add_salt-append, length-add_salt}
use vpverk.Session.Exchange.{Agreed, Fails, exchange_aes_key-Agreed}

module _ (C : Cipher) where
  -- The server takes the client's input apart the way the client put it together.
  session_from-client_input :
      (a : Bool) (key iv1 iv2 : List ℕ)
      → length key ≡ 32
      → length iv1 ≡ 16
      → length iv2 ≡ 16
      → session_from C a (client_input C key iv1 iv2) ≡ create C a (add_salt key) iv2 iv1
  unfolding session_from
  session_from-client_input a key iv1 iv2 k p q =
      let s = add_salt key in
      let sl : length s ≡ 32 = length-add_salt key ∙ k in
      let joined : add_salt (key ++ (iv2 ++ iv1)) ≡ s ++ (iv2 ++ iv1) =
        add_salt-append key (iv2 ++ iv1) (omega arith) in
      let first = take_at 32 s (iv2 ++ iv1) sl in
      let middle =
        ap (λ (r : List ℕ). take 16 r) (drop_at 32 s (iv2 ++ iv1) sl) ∙ take_at 16 iv2 iv1 q in
      let past =
        ap (λ (r : List ℕ). drop 48 r) (sym (append_assoc s iv2 iv1))
        ∙ drop_at 48 (s ++ iv2) iv1 (omega (arith, length-append s iv2)) in
      let last = ap (λ (r : List ℕ). take 16 r) past ∙ all_of 16 iv1 p in
      ap (λ (r : List ℕ). create C a (take 32 r) (take 16 (drop 32 r)) (take 16 (drop 48 r))) joined
      ∙ rw (first, middle, last)

  -- If the server decrypts to what the client put under RSA, a key of 32 bytes and two vectors of
  -- 16, and both ends make a session, then each end can read what the other writes.
  pub client_session-Paired :
      (a b : Bool) (key iv1 iv2 : List ℕ) (client server : AesSession C)
      → length key ≡ 32
      → length iv1 ≡ 16
      → length iv2 ≡ 16
      → client_session C a key iv1 iv2 ≡ value client
      → session_from C b (client_input C key iv1 iv2) ≡ value server
      → Paired C client server
  unfolding client_session
  client_session-Paired a b key iv1 iv2 client server k p q e f =
      create-Paired C a b (add_salt key) iv1 iv2 client server e
        (sym (session_from-client_input b key iv1 iv2 k p q) ∙ f)

  module _ (S : Socket) (yield : Connection S → Connection S) where
    -- With the private key of a pair of 2048 bits, on an open connection whose write lock is free, the
    -- exchange always throws, whatever arrives: its out buffer of 64 bytes is below the 256 that the
    -- length query reports. At the throw, nothing was sent, or the connection is closed.
    pub exchange_aes_key_throws :
        (rounds : ℕ) (priv pub_key : Pkey) (allocated : Bool) (c : Connection S)
        → IsPair priv pub_key
        → c.closed ≡ false
        → c.write_locked ≡ false
        → Post
            (λ s d. ⊥)
            (Fails C S c)
            (exchange_aes_key C S yield
              (suc rounds)
              (record { key_type = private_key; key = priv })
              allocated
              c)
    exchange_aes_key_throws rounds priv pub_key allocated c pair opened free =
        let key : RsaKey = record { key_type = private_key; key = priv } in
        Post-weaken (Agreed C S yield rounds key allocated c) (λ s d. ⊥) (Fails C S c) (Fails C S c)
          _ (exchange_aes_key-Agreed C S yield rounds key allocated c opened free)
          (λ s d g.
            bad_good (sym (decrypt_small priv pub_key pair g.y 64 (omega arith) g.long) ∙ g.opened))
          (λ e d h. h)
      where
        bad_good :
            {t : String} {x : List ℕ}
            → Path (Outcome (Checked (List ℕ))) (ok (bad t)) (ok (good x))
            → ⊥
        bad_good h = cc

    -- On an open connection whose write lock is free, the exchange ends, by a throw or by a session,
    -- but not by a session if what it read is the opening message of the client, whose size is 4. At a
    -- throw, nothing was sent, or the connection is closed.
    exchange_aes_key_client :
        (rounds : ℕ) (key : RsaKey) (allocated : Bool) (y : List ℕ) (c : Connection S)
        → c.closed ≡ false
        → c.write_locked ≡ false
        → Post
            (λ s d. S.received d.sock ≢ S.received c.sock ++ client_opening C y)
            (Fails C S c)
            (exchange_aes_key C S yield (suc rounds) key allocated c)
    exchange_aes_key_client rounds key allocated y c opened free =
        Post-weaken (Agreed C S yield rounds key allocated c)
          (λ s d. S.received d.sock ≢ S.received c.sock ++ client_opening C y) (Fails C S c)
          (Fails C S c) _ (exchange_aes_key-Agreed C S yield rounds key allocated c opened free)
          (λ s d g e.
            let same =
              append_cancel (S.received c.sock) (g.first ++ g.y) (client_opening C y)
                (sym g.got.arrived ∙ e) in
            let four : g.first ≡ bytes_of 4 =
              sym (take_at 4 g.first g.y g.first_size.0) ∙ ap (λ (k : List ℕ). take 4 k) same in
            let n : number_of g.first ≡ 4 = ap number_of four in omega (arith, n, g.first_size.1))
          (λ e d h. h)
