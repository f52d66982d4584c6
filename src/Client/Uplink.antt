-- ===== src/Client/Uplink.antt =====
-- What the client sends for the packets of the tunnel (`startTunRead`, src/client/async.cpp).
use vpverk.Base.{
  ℕ, ◌+◌, ◌≤◌, ◌≡◌, refl, sym, ap, ◌∙◌, List, ◌++◌, length, take, ◌==◌, arith, Bool-cases, inl, inr,
  ◌⊎◌, take_all,
}
use vpverk.Effect.{
  ErrorCode, Exception, operation_canceled, message_size, no_buffer_space, invalid_argument,
  not_enough_memory, io_error, connection_reset, would_block, try_again, eof, other, Expected,
  value, unexpected, Outcome, ok, throw, abort, unfinished, continue, ◌>>=◌,
}
use vpverk.Effect.Post.{Post}
use vpverk.Net.{Socket, send, send-Sends, Sends}
use vpverk.Aes.{Cipher, AesSession}
use vpverk.Session.{or_throw, pure}
use vpverk.Traffic.{seal}
use vpverk.Traffic.Packet.{length-seal}
use vpverk.Client.{End, on_sock, max_packet, tun_round, unless_canceled}

module _ (C : Cipher) (S : Socket) where
  -- The session sealed `packet`, and the first `count` bytes of that were sent: all of them, or fewer if
  -- the send failed.
  pub record Sealed (packet : List ℕ) (e k : End C S) : Type 0 where
    pub y : List ℕ
    pub count : ℕ
    pub sealed : seal C packet (max_packet + 4) e.aes ≡ (value y, k.aes)
    pub within : count ≤ length y
    pub sent : S.sent k.sock ≡ S.sent e.sock ++ take count y
    pub unread : S.received k.sock ≡ S.received e.sock

  -- A round that goes on.
  abbrev pub Passed : List ℕ → End C S → Unit {0} → End C S → Type 0
  Passed packet e u k =
      ((length packet ≡ 0) × (k ≡ e))
      ⊎ ((h : Sealed packet e k) × ((h.count ≡ length h.y)
            ⊎ ((send S h.y e.sock).0 ≡ ok (unexpected operation_canceled))))

  -- A round that throws: nothing was sent, or a part of the packet.
  abbrev Dropped : List ℕ → End C S → Exception → End C S → Type 0
  Dropped packet e x k = (S.sent k.sock ≡ S.sent e.sock) ⊎ Sealed packet e k

  send_part :
      (packet y : List ℕ) (e j : End C S)
      → seal C packet (max_packet + 4) e.aes ≡ (value y, j.aes)
      → (x : Outcome (Expected (Unit {0})) × S.State) → send S y e.sock ≡ x
      → Sends S y e.sock x
      → Post
          (Passed packet e)
          (Dropped packet e)
          (continue (unless_canceled C S pure tt) (x.0, record j { sock = x.1 }))
  unfolding unless_canceled
  send_part packet y e j sealed (ok (value u), t) q (out, kept) = inr (
    record {
      y = y;
      count = length y;
      sealed = sealed;
      within = omega arith;
      sent = out ∙ ap (◌++◌ (S.sent e.sock)) (sym (take_all y));
      unread = kept;
    },
    inl refl,
  )
  send_part packet y e j sealed (ok (unexpected c), t) q (n, less, out, kept) =
      stopped c q
        (record {
          y = y;
          count = n;
          sealed = sealed;
          within = omega arith;
          sent = out;
          unread = kept;
        })
        refl
    where
      stopped :
          (c : ErrorCode)
          → send S y e.sock ≡ (ok (unexpected c), t)
          → (h : Sealed packet e (record j { sock = t })) → h.y ≡ y
          → Post
              (Passed packet e)
              (Dropped packet e)
              (unless_canceled C S pure tt (unexpected c) (record j { sock = t }))
      stopped operation_canceled q h same =
          inr (h, inr (ap (λ z. (send S z e.sock).0) same ∙ ap (λ p. p.0) q))
      stopped message_size q h same = inr h
      stopped no_buffer_space q h same = inr h
      stopped invalid_argument q h same = inr h
      stopped not_enough_memory q h same = inr h
      stopped io_error q h same = inr h
      stopped connection_reset q h same = inr h
      stopped would_block q h same = inr h
      stopped try_again q h same = inr h
      stopped eof q h same = inr h
      stopped (other n) q h same = inr h
  send_part packet y e j sealed (throw x, t) q h = absurd h
  send_part packet y e j sealed (abort m, t) q h = absurd h
  send_part packet y e j sealed (unfinished, t) q h = absurd h

  -- A round for a packet of at most 1500 bytes ends by going on or by a throw, never in `cuabort`. If
  -- it goes on, the packet is empty and nothing changed, or the bytes sent are the size and the
  -- packet under the session, whole or, if the send was canceled, a first part of them. If it throws,
  -- nothing was sent, or a first part of them.
  tun_round-Passed :
      (packet : List ℕ) (e : End C S)
      → length packet ≤ max_packet
      → Post (Passed packet e) (Dropped packet e) (tun_round C S packet e)
  unfolding tun_round
  tun_round-Passed packet e small = elim (Bool-cases (length packet == 0)) [
    | inl empty ↦
        let none_there : length packet ≡ 0 = ground arith in rw empty (inl (none_there, refl))
    | inr full ↦ rw full (go (seal C packet (max_packet + 4) e.aes) refl)
  ]
    where
      go :
          (r : Expected (List ℕ) × AesSession C)
          → seal C packet (max_packet + 4) e.aes ≡ r
          → Post (Passed packet e) (Dropped packet e) (
              continue
                (λ y. do sent ← on_sock C S (send S y); unless_canceled C S pure tt sent)
                (or_throw "" r.0 (record e { aes = r.1 })))
      go (value y, a) q =
          let l = length-seal C packet y (max_packet + 4) e.aes a (omega arith) q in
          send_part packet y e (record e { aes = a }) q (send S y e.sock) refl
            (send-Sends S y e.sock (omega (arith, l)) (omega (arith, l)))
      go (unexpected c, a) q = inl refl
