-- ===== src/Dispatch.antt =====
-- `routeTunToClients` (src/server/contexts/sessionscontrol.cpp): the loop around the rounds of Forward, and the
-- way of a packet to its client. What the reads of the tunnel and the pops of the queue give is an
-- argument, up to the request to stop.
pub mod Pass
mod Tests
use vpverk.Base.{
  ℕ, zero, suc, ◌+◌, Bool, true, false, Option, none, some, List, [], ◌∷◌, length, ◌==◌,
  if◌then◌else◌,
}
use vpverk.Effect.{
  Exception, Expected, value, unexpected, Outcome, ok, throw, abort, unfinished, M, continue, ◌>>=◌,
  ◌>>◌,
}
use vpverk.Net.{Socket}
use vpverk.Aes.{Cipher, AesSession}
use vpverk.Connection.{Connection, send_all, close}
use vpverk.Session.{Link, on_con, on_aes, pure}
use vpverk.Traffic.{seal}
use vpverk.Router.{Peer, Route, Router}
use vpverk.Forward.{Decision, skip, deliver, forward}

-- `"server failed to encrypt"`
abbrev pub failed_encrypt : List ℕ
failed_encrypt =
    b's' ∷ b'e' ∷ b'r' ∷ b'v' ∷ b'e' ∷ b'r' ∷ b' ' ∷ b'f' ∷ b'a' ∷ b'i' ∷ b'l' ∷ b'e' ∷ b'd' ∷ b' '
    ∷ b't' ∷ b'o' ∷ b' ' ∷ b'e' ∷ b'n' ∷ b'c' ∷ b'r' ∷ b'y' ∷ b'p' ∷ b't' ∷ []

-- `"server failed to send"`
abbrev pub failed_send : List ℕ
failed_send =
    b's' ∷ b'e' ∷ b'r' ∷ b'v' ∷ b'e' ∷ b'r' ∷ b' ' ∷ b'f' ∷ b'a' ∷ b'i' ∷ b'l' ∷ b'e' ∷ b'd' ∷ b' '
    ∷ b't' ∷ b'o' ∷ b' ' ∷ b's' ∷ b'e' ∷ b'n' ∷ b'd' ∷ []

-- What one round gets: the packet that the read gives, empty at a timeout, what the
-- buffer holds behind it, and the pops of the queue.
pub record Input : Type 0 where
  pub packet : List ℕ
  pub behind : ℕ → ℕ
  pub pops : List (Option Route)

module _ (C : Cipher) (S : Socket) where
  -- The routes, the connection and session of each peer by the name of its connection, and the
  -- inputs to come before the stop is requested.
  pub record Hub : Type 0 where
    pub router : Router
    pub links : ℕ → Link C S
    pub inputs : List Input

  -- An action on one peer.
  abbrev on_peer : {A : Type 0} → ℕ → M (Link C S) A → M Hub A
  on_peer i f h =
      let (r, l) = f (h.links i) in (r, record h { links = λ n. if n == i then l else h.links n })

  module _ (yield : Connection S → Connection S) (spins : ℕ) where
    -- `lock.reset()`
    abbrev release_write : M (Connection S) (Unit {0})
    release_write c = (ok tt, record c { write_locked = false })

    -- The packet cannot go out: the lock is given back before the close.
    unfoldable pub give_up : List ℕ → M (Link C S) Bool
    give_up reason = do
      on_con C S release_write
      on_con C S (close S yield spins reason)
      pure false

    unfoldable pub after_send : Expected (Unit {0}) → M (Link C S) Bool
    after_send (value u) = do on_con C S release_write; pure true
    after_send (unexpected c) = give_up failed_send

    unfoldable pub after_encrypt : Expected (List ℕ) → M (Link C S) Bool
    after_encrypt (value y) = do r ← on_con C S (send_all S y); after_send r
    after_encrypt (unexpected c) = give_up failed_encrypt

    -- The size and the packet, under the session, to the client; the write lock is held. False is a
    -- `continue` of the loop.
    unfoldable pub pass_packet : List ℕ → M (Link C S) Bool
    pass_packet p = do r ← on_aes C S (seal C p (length p + 4)); after_encrypt r

    -- `while(not lock)`, with a round of its own for every try that fails
    unfoldable pub lock_peer : M Hub (Unit {0}) → ℕ → ℕ → M Hub (Unit {0})
    lock_peer nested zero i h = (unfinished, h)
    lock_peer nested (suc fuel) i h =
        let rest = continue (λ u. lock_peer nested fuel i) (nested h) in
        if (h.links i).con.write_locked
        then rest
        else on_peer i (on_con C S (λ c. (ok tt, record c { write_locked = true }))) h

    unfoldable pub send_packet : M Hub (Unit {0}) → ℕ → Peer → List ℕ → M Hub Bool
    send_packet nested fuel v p = do lock_peer nested fuel v.con; on_peer v.con (pass_packet p)

    module _ (check : List ℕ → Outcome (Unit {0})) where
      -- What follows the choice of the peer, and the end of a round; `again` is the next one.
      unfoldable pub act :
          M Hub (Unit {0}) → M Hub (Unit {0}) → ℕ → Bool → Outcome Decision → M Hub (Unit {0})
      act nested again fuel use_loop (ok skip) h = again h
      act nested again fuel use_loop (ok (deliver v p)) h =
          continue (λ sent. if sent then (if use_loop then again else pure tt) else again)
            (send_packet nested fuel v p h)
      act nested again fuel use_loop (throw e) h = (throw e, h)
      act nested again fuel use_loop (abort m) h = (abort m, h)
      act nested again fuel use_loop unfinished h = (unfinished, h)

      -- The while loop; an empty list of inputs is the stop.
      unfoldable pub rounds : M Hub (Unit {0}) → ℕ → Bool → M Hub (Unit {0})
      rounds nested zero use_loop h = (unfinished, h)
      rounds nested (suc fuel) use_loop h = elim h.inputs [
        | [] ↦ (ok tt, h)
        | i ∷ rest ↦ elim (forward i.behind check i.pops i.packet h.router) [
          | none ↦ (unfinished, h)
          | some r ↦
              act nested (rounds nested fuel use_loop) fuel use_loop r.0
                (record h { router = r.1; inputs = rest })
        ]
      ]

      -- The catch: the loop starts again on its own.
      abbrev restart : M Hub (Unit {0}) → Outcome (Unit {0}) × Hub → Outcome (Unit {0}) × Hub
      restart anew (throw e, h) = anew h
      restart anew (ok u, h) = (ok u, h)
      restart anew (abort m, h) = (abort m, h)
      restart anew (unfinished, h) = (unfinished, h)

      -- `routeTunToClients`
      unfoldable pub route_tun : ℕ → Bool → M Hub (Unit {0})
      route_tun zero use_loop h = (unfinished, h)
      route_tun (suc fuel) use_loop h =
          if length h.router == 0
          then restart (route_tun fuel true) (rounds (route_tun fuel false) fuel use_loop h)
          else (abort "cussert: tunRouter.empty()", h)
