-- ===== src/Lifecycle.antt =====
-- The life of a session on the server: `startConnection` (src/server/contexts/sessionscontrol.cpp).
-- The pool of addresses and the queue of route requests are shared with the other sessions and with
-- the thread of the tunnel: `meanwhile` is what those do before this session's next access.
pub mod Trace
pub mod Whole
pub mod Keeps
mod Tests
use vpverk.Base.{
  ℕ, zero, suc, String, Bool, true, false, not, Option, none, some, List, [], ◌∷◌, ◌++◌, length,
  ltb, if◌then◌else◌,
}
use vpverk.Effect.{
  Exception, runtime_error, Outcome, ok, throw, abort, unfinished, M, continue, ◌>>=◌, ◌>>◌,
}
use vpverk.Net.{Socket}
use vpverk.Aes.{Cipher, AesSession}
use vpverk.Settings.{SettingsSnapshot}
use vpverk.Rsa.{RsaKey}
use vpverk.Connection.{Connection, is_active, close}
use vpverk.Session.{Link, exchange_aes_key, authenticate_user, send_ip, raise, pure}
use vpverk.Traffic.{Relay, perform_data_exchange}
use vpverk.Address.{AddressPool, allot, rounds, release}
use vpverk.Router.{Peer, Route}

-- `routes_q::CAPACITY`
abbrev pub queue_capacity : ℕ
queue_capacity = 4096

-- `"Access denied"`
abbrev pub access_denied : List ℕ
access_denied =
    b'A' ∷ b'c' ∷ b'c' ∷ b'e' ∷ b's' ∷ b's' ∷ b' ' ∷ b'd' ∷ b'e' ∷ b'n' ∷ b'i' ∷ b'e' ∷ b'd' ∷ []

-- `"server error: queue full"`
abbrev pub queue_full : List ℕ
queue_full =
    b's' ∷ b'e' ∷ b'r' ∷ b'v' ∷ b'e' ∷ b'r' ∷ b' ' ∷ b'e' ∷ b'r' ∷ b'r' ∷ b'o' ∷ b'r' ∷ b':' ∷ b' '
    ∷ b'q' ∷ b'u' ∷ b'e' ∷ b'u' ∷ b'e' ∷ b' ' ∷ b'f' ∷ b'u' ∷ b'l' ∷ b'l' ∷ []

-- What the sessions share.
pub record Shared : Type 0 where
  pub pool : AddressPool
  pub queue : List Route

-- `tunQueue.try_push`: a queue that is full refuses.
unfoldable pub try_push : Route → Shared → Bool × Shared
try_push r s =
    if ltb (length s.queue) queue_capacity
    then (true, record s { queue = s.queue ++ r ∷ [] })
    else (false, s)

-- What a session does to what is shared, in order.
pub data Deed : Type 0 where
  takes registers unregisters releases : ℕ → Deed

module _ (C : Cipher) (S : Socket) where
  -- A session; `assigned` is `assigned_address`, and `deeds` are those so far.
  pub record Life : Type 0 where
    pub con : Connection S
    pub shared : Shared
    pub assigned : Option ℕ
    pub written : List (List ℕ)
    pub deeds : List Deed

  abbrev pub on_life : {A : Type 0} → M (Connection S) A → M Life A
  on_life f l = let (r, c) = f l.con in (r, record l { con = c })

  abbrev pub with_aes : {A : Type 0} → Outcome A → AesSession C → Outcome (A × AesSession C)
  with_aes (ok x) a = ok (x, a)
  with_aes (throw e) a = throw e
  with_aes (abort m) a = abort m
  with_aes unfinished a = unfinished

  abbrev pub on_link : {A : Type 0} → AesSession C → M (Link C S) A → M Life (A × AesSession C)
  on_link a f l =
      let (r, k) = f (record { con = l.con; aes = a }) in
      (with_aes r k.aes, record l { con = k.con })

  module _ (meanwhile : Shared → Shared) (check : ℕ → Outcome (Unit {0})) where
    -- `getNewAddress`, with its check as a parameter
    given : Outcome ℕ × AddressPool → M Life ℕ
    given (ok a, p) l = (
      ok a,
      record l {
        shared = record l.shared { pool = p };
        assigned = some a;
        deeds = l.deeds ++ takes a ∷ [];
      },
    )
    given (throw e, p) l = (throw e, record l { shared = record l.shared { pool = p } })
    given (abort m, p) l = (abort m, record l { shared = record l.shared { pool = p } })
    given (unfinished, p) l = (unfinished, record l { shared = record l.shared { pool = p } })

    pub take_address : M Life ℕ
    unfolding given
    take_address l =
        let now : Life = record l { shared = meanwhile l.shared } in
        elim (allot check rounds now.shared.pool) [
          | none ↦ (unfinished, now)
          | some r ↦ given r now
        ]

    module _ (yield : Connection S → Connection S) (spins : ℕ) where
      -- What follows a push of the new route.
      pushed : ℕ → Bool × Shared → M Life (Unit {0})
      pushed a (true, s) l = (ok tt, record l { shared = s; deeds = l.deeds ++ registers a ∷ [] })
      pushed a (false, s) l =
          continue (λ _. raise (runtime_error "failed to add pointer to atomic queue"))
            (on_life (close S yield spins queue_full) (record l { shared = s }))

      pub register : ℕ → Peer → M Life (Unit {0})
      unfolding pushed
      register a v l =
          pushed a
            (try_push (record { add_or_remove = true; addr = a; peer = v }) (meanwhile l.shared)) l

      on_relay : {A : Type 0} → AesSession C → M (Relay C S yield spins) A → M Life A
      on_relay a f l =
          let (r, k) = f (record { link = record { con = l.con; aes = a }; written = l.written }) in
          (r, record l { con = k.link.con; written = k.written })

      -- A user who is allowed: the address, the route, and the packets.
      pub serve_user : Peer → ℕ → AesSession C → M Life Bool
      unfolding take_address register on_relay
      serve_user v fuel aes = do
        a ← take_address
        r ← on_link aes (send_ip C S yield spins a)
        register a v
        on_relay r.1 (perform_data_exchange C S yield spins fuel)
        pure false

      -- `cussert(connection and connection->is_active())`: the optional has a value.
      assert_active : Option Bool → M Life (Unit {0})
      assert_active (some b) l = (ok tt, l)
      assert_active none l = (abort "cussert: connection and connection->is_active()", l)

      -- The private key of the settings; it is null only before they are read.
      private_key : Option RsaKey → M Life RsaKey
      private_key (some k) l = (ok k, l)
      private_key none l = (abort "null private key", l)

      -- The try block: whether it is left by `co_return`.
      pub session : SettingsSnapshot → Bool → Peer → ℕ → M Life Bool
      unfolding assert_active private_key
      session settings allocated v fuel = do
        active ← on_life (is_active S)
        assert_active active
        key ← private_key settings.private_key
        aes ← on_life (exchange_aes_key C S yield spins key allocated)
        r ← on_link aes (authenticate_user C S yield spins settings.allowed_logins)
        (if r.0
            then serve_user v fuel r.1
            else (do on_life (close S yield spins access_denied); pure true))

      -- `while(not tunQueue.try_push(route))`
      push_removal : ℕ → ℕ → Peer → M Life (Unit {0})
      push_removal zero a v l = (unfinished, l)
      push_removal (suc fuel) a v l =
          let (done, s) =
            try_push (record { add_or_remove = false; addr = a; peer = record v { aes = none } })
              (meanwhile l.shared) in
          let rest = push_removal fuel a v (record l { shared = s }) in
          if done
          then (ok tt, record l { shared = s; deeds = l.deeds ++ unregisters a ∷ [] })
          else rest

      give_back : ℕ → M Life (Unit {0})
      give_back a l =
          let s = meanwhile l.shared in
          (
            ok tt,
            record l {
              shared = record s { pool = release a s.pool };
              deeds = l.deeds ++ releases a ∷ [];
            },
          )

      -- What follows the try block.
      pub leave : Peer → M Life (Unit {0})
      unfolding push_removal give_back
      leave v l = elim l.assigned [
        | none ↦ (ok tt, l)
        | some a ↦ (do push_removal spins a v; give_back a) l
      ]

      -- After the try block and its catch.
      afterwards : Peer → Outcome Bool × Life → Outcome (Unit {0}) × Life
      afterwards v (ok true, l) = (ok tt, l)
      afterwards v (ok false, l) = leave v l
      afterwards v (throw e, l) = leave v l
      afterwards v (abort m, l) = (abort m, l)
      afterwards v (unfinished, l) = (unfinished, l)

      -- `startConnection`
      pub start_connection : SettingsSnapshot → Bool → Peer → ℕ → M Life (Unit {0})
      unfolding afterwards
      start_connection settings allocated v fuel l =
          afterwards v (session settings allocated v fuel l)
