-- ===== src/Client/Downlink.antt =====
-- What becomes of the packets that arrive at the client (`startSocketRead`, src/client/async.cpp).
use vpverk.Base.{ℕ, suc, ◌≡◌, true, false, ltb, ◌==◌, arith, if◌then◌else◌, Bool-cases, inl, inr}
use vpverk.Effect.{Outcome, ok, throw, abort, unfinished, continue, ◌>>=◌, ◌>>◌}
use vpverk.Effect.Post.{Post}
use vpverk.Net.{Socket, read_some}
use vpverk.Aes.{Cipher}
use vpverk.Session.{pure}
use vpverk.Client.{
  End, on_sock, read_block_size, max_packet, socket_round, socket_rounds, start_socket_read,
  or_abort, unless_canceled, to_tunnel,
}
use vpverk.Client.Silence.{Quiet, Sized, Refused, read_block_size-Sized}

module _ (C : Cipher) (S : Socket) where
  -- It ends by an exception or in `cuabort`, with nothing sent and nothing written.
  abbrev Halts : {A : Type 0} → End C S → Outcome A × End C S → Type 0
  Halts e (ok a, k) = ⊥
  Halts e (throw x, k) = Quiet C S e k
  Halts e (abort m, k) = Quiet C S e k
  Halts e (unfinished, k) = ⊥

  -- It ends in `cuabort`, with nothing sent and nothing written.
  abbrev pub Aborts : {A : Type 0} → End C S → Outcome A × End C S → Type 0
  Aborts e (ok a, k) = ⊥
  Aborts e (throw x, k) = ⊥
  Aborts e (abort m, k) = Quiet C S e k
  Aborts e (unfinished, k) = ⊥

  too_much-Halts :
      (n : ℕ) (e k : End C S)
      → ltb max_packet n ≡ true
      → Quiet C S e k
      → Halts e (
          (do
            r ← on_sock C S (read_some S max_packet n)
            unless_canceled C S (to_tunnel C S n) tt r)
            k)
  unfolding read_some unless_canceled
  too_much-Halts n e k large q =
      let some_bytes : (n == 0) ≡ false = ground arith in rw (large, some_bytes) q

  socket_round-Halts : (e : End C S) → Halts e (socket_round C S e)
  unfolding socket_round
  socket_round-Halts e = go (read_block_size C S true e) (read_block_size-Sized C S true e)
    where
      go :
          (x : Outcome ℕ × End C S)
          → Post (Sized C S true e) (Refused C S e) x
          → Halts e (
              continue
                (λ n. do
                  (if ltb max_packet n then pure tt else λ k.
                      (abort "cussert: read_size > max_possible_ip_packet_size", k))
                  r ← on_sock C S (read_some S max_packet n)
                  unless_canceled C S (to_tunnel C S n) tt r)
                x)
      go (ok n, k) h = elim (Bool-cases (ltb max_packet n)) [
        | inl large ↦ rw large (too_much-Halts n e k large h.quiet)
        | inr small ↦ rw small h.quiet
      ]
      go (throw x, k) h = h
      go (abort m, k) h = absurd h
      go (unfinished, k) h = absurd h

  -- Whatever arrives, the loop of the client that reads from the socket ends in `cuabort` in its
  -- first round, unless the stop is requested before it. It writes no packet to the tunnel and sends
  -- nothing.
  pub start_socket_read-Aborts :
      (rounds : ℕ) (e : End C S) → Aborts e (start_socket_read C S (suc rounds) e)
  unfolding start_socket_read socket_rounds
  start_socket_read-Aborts rounds e = go (socket_round C S e) (socket_round-Halts e)
    where
      go :
          (x : Outcome (Unit {0}) × End C S)
          → Halts e x
          → Aborts e (or_abort (continue (λ u. socket_rounds C S rounds) x))
      go (ok a, k) h = absurd h
      go (throw y, k) h = h
      go (abort m, k) h = h
      go (unfinished, k) h = absurd h
