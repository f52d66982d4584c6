-- ===== src/Loop/Detached.antt =====
-- Coroutines that nobody awaits: `cvk::coroutine_t` (src/shared/coroutinesthings.hpp). They start at once,
-- and an exception that leaves one ends the program.
use vpverk.Base.{ℕ, ◌≡◌, refl, Bool, none, List, []}
use vpverk.Effect.{Outcome, ok, throw, abort, unfinished, M}
use vpverk.Net.{Socket}
use vpverk.Aes.{Cipher}
use vpverk.Settings.{SettingsSnapshot}
use vpverk.Connection.{Connection}
use vpverk.Router.{Peer}
use vpverk.Sweep.{Table, Entry, close_old_sessions, crash}
use vpverk.Lifecycle.{Shared, Life, start_connection}
use vpverk.Lifecycle.Whole.{Ends, start_connection-Ends}
use vpverk.Client.{End, start_tun_read, start_socket_read, or_abort}

module _ {A T : Type 0} where
  -- `unhandled_exception` where an exception leaves the body
  unfoldable pub unhandled : Outcome A × T → Outcome A × T
  unhandled (throw e, s) = (abort "std::terminate", s)
  unhandled (ok a, s) = (ok a, s)
  unhandled (abort m, s) = (abort m, s)
  unhandled (unfinished, s) = (unfinished, s)

  -- `initial_suspend` and `final_suspend` do not suspend.
  unfoldable pub detach : M T A → M T A
  unfolding unhandled
  detach body s = unhandled (body s)

  aborted_same : (x : Outcome A × T) → unhandled (or_abort x) ≡ or_abort x
  unfolding unhandled
  aborted_same (ok a, s) = refl
  aborted_same (throw e, s) = refl
  aborted_same (abort m, s) = refl
  aborted_same (unfinished, s) = refl

ended_same :
    (C : Cipher) (S : Socket) (x : Outcome (Unit {0}) × Life C S) → Ends C S x → unhandled x ≡ x
unfolding unhandled
ended_same C S (ok a, s) h = refl
ended_same C S (throw e, s) h = absurd h
ended_same C S (abort m, s) h = refl
ended_same C S (unfinished, s) h = refl

module _ (S : Socket) (yield : Connection S → Connection S) (spins : ℕ) where
  module _ (others : List (Entry S) → List (Entry S)) where
    crashed_same :
        {A : Type 0} (x : Outcome A × Table S)
        → unhandled (crash S yield spins others x) ≡ crash S yield spins others x
    unfolding unhandled crash
    crashed_same (ok a, s) = refl
    crashed_same (throw e, s) = refl
    crashed_same (abort m, s) = refl
    crashed_same (unfinished, s) = refl

    -- No exception leaves a sweep: detached it comes to the same as awaited.
    close_old_sessions_detached :
        (max : ℕ) (t : Table S)
        → detach (close_old_sessions S yield spins others max) t
          ≡ close_old_sessions S yield spins others max t
    unfolding detach close_old_sessions
    close_old_sessions_detached max t = crashed_same _

  module _ (C : Cipher) where
    -- No exception leaves the loop of the client that reads from the tunnel.
    start_tun_read_detached :
        (packets : List (List ℕ)) (e : End C S)
        → detach (start_tun_read C S packets) e ≡ start_tun_read C S packets e
    unfolding detach start_tun_read
    start_tun_read_detached packets e = aborted_same _

    -- No exception leaves the loop of the client that reads from the socket.
    start_socket_read_detached :
        (rounds : ℕ) (e : End C S)
        → detach (start_socket_read C S rounds) e ≡ start_socket_read C S rounds e
    unfolding detach start_socket_read
    start_socket_read_detached rounds e = aborted_same _

    -- No exception leaves a session that starts with no address.
    start_connection_detached :
        (meanwhile : Shared → Shared) (check : ℕ → Outcome (Unit {0})) (settings : SettingsSnapshot)
        (allocated : Bool) (v : Peer) (fuel : ℕ) (l : Life C S)
        → l.assigned ≡ none
        → l.deeds ≡ []
        → detach (start_connection C S meanwhile check yield spins settings allocated v fuel) l
          ≡ start_connection C S meanwhile check yield spins settings allocated v fuel l
    unfolding detach
    start_connection_detached meanwhile check settings allocated v fuel l free fresh =
        ended_same C S
          (start_connection C S meanwhile check yield spins settings allocated v fuel l)
          (start_connection-Ends C S meanwhile check yield spins settings allocated v fuel l free
            fresh)
