-- ===== src/Log/Wakeup.antt =====
-- A stop of the log that is missed (`stop`, src/shared/log/impl.hpp).
use vpverk.Base.{
  ℕ, zero, suc, ◌≡◌, refl, ap, ◌∙◌, ◌≢◌, ◌+◌, ◌≤◌, length, arith, true, List, [], ◌∷◌, ◌++◌,
}
use vpverk.Effect.{Outcome}
use vpverk.FlatMap.{FlatMap}
use vpverk.Log.Files.{files, stream_of, at_try_first-files}
use vpverk.Log.Order.{IsAlive}
use vpverk.Log.{
  Message, Stream, Place, looping, locking, deciding, blocked, draining, ended, dead, Log, Event,
  works, requests_stop, notifies, notified, work_step, drain_one, write_front, log_step, log_run,
}

-- So many actions of the worker
abbrev pub only_works : ℕ → List Event
only_works zero = []
only_works (suc n) = works ∷ only_works n

module _ (streams : FlatMap Stream) where
  stays_blocked : (n : ℕ) (s : Log) → s.place ≡ blocked → log_run streams (only_works n) s ≡ s
  unfolding log_run log_step work_step
  stays_blocked zero s e = refl
  stays_blocked (suc n) s e =
      ap (λ (p : Place). log_run streams (only_works n) (work_step streams p s)) e
      ∙ stays_blocked n s e

  -- `stop` takes no mutex. Where it makes its request and its notification while the worker has found the
  -- queue empty and no stop requested but does not wait yet, the worker waits after it and, with no
  -- further push and no wakeup that nobody asked for, does so for ever: the join of `stop` does not return.
  pub stop_missed :
      (n : ℕ) (s : Log)
      → s.place ≡ deciding
      → (log_run streams (requests_stop ∷ notifies ∷ works ∷ only_works n) s).place ≡ blocked
  unfolding log_run log_step work_step
  stop_missed n s e =
      ap (λ (t : Log). t.place)
        (ap
            (λ (p : Place).
              log_run streams (only_works n)
                (work_step streams p (record s { stop_requested = true; place = p })))
            (ap notified e)
          ∙ stays_blocked n (record s { stop_requested = true; place = blocked }) refl)

-- A log whose stop is requested
abbrev stopping : List Message → List (Stream × List ℕ) → List Message → Place → Log
stopping q w p place = record {
  queue = q;
  stop_requested = true;
  place = place;
  written = w;
  pushed = p;
}

ends_ended :
    (k : ℕ) (q : List Message) (w : List (Stream × List ℕ)) (p : List Message)
    → (log_run files (only_works k) (stopping q w p ended)).place ≡ ended
unfolding log_run log_step work_step
ends_ended zero q w p = refl
ends_ended (suc k) q w p = ends_ended k q w p

ends_looping :
    (k : ℕ) (q : List Message) (w : List (Stream × List ℕ)) (p : List Message)
    → 1 ≤ k
    → (log_run files (only_works k) (stopping q w p looping)).place ≡ ended
unfolding log_run log_step work_step
ends_looping zero q w p h = absurd (omega arith)
ends_looping (suc k) q w p h = ends_ended k q w p

ends_draining :
    (k : ℕ) (q : List Message) (w : List (Stream × List ℕ)) (p : List Message)
    → length q + 2 ≤ k
    → (log_run files (only_works k) (stopping q w p draining)).place ≡ ended
unfolding log_run log_step work_step drain_one write_front
ends_draining zero q w p h = absurd (omega arith)
ends_draining (suc k) [] w p h = ends_looping k [] w p (omega arith)
ends_draining (suc k) (m ∷ q) w p h =
    ap
      (λ (o : Outcome Stream).
        (log_run files (only_works k) (write_front o m q (stopping (m ∷ q) w p draining))).place)
      (at_try_first-files m.target)
    ∙ ends_draining k q (w ++ (stream_of m.target, m.text) ∷ []) p (omega arith)

ends_locking :
    (k : ℕ) (q : List Message) (w : List (Stream × List ℕ)) (p : List Message)
    → length q + 3 ≤ k
    → (log_run files (only_works k) (stopping q w p locking)).place ≡ ended
unfolding log_run log_step work_step
ends_locking zero q w p h = absurd (omega arith)
ends_locking (suc k) [] w p h = ends_draining k [] w p (omega arith)
ends_locking (suc k) (m ∷ q) w p h = ends_draining k (m ∷ q) w p (omega arith)

-- A stop that comes while the worker is anywhere else than between its look at the queue and its wait
-- ends the worker: three actions more than there are messages in the queue are enough.
pub stop_heard :
    (k : ℕ) (s : Log)
    → length s.queue + 3 ≤ k
    → IsAlive s.place
    → s.place ≢ deciding
    → (log_run files (requests_stop ∷ notifies ∷ only_works k) s).place ≡ ended
unfolding log_run log_step
stop_heard k s enough alive there = go s.place alive there
  where
    go :
        (p : Place)
        → IsAlive p
        → p ≢ deciding
        → (log_run files (only_works k) (stopping s.queue s.written s.pushed (notified p))).place
          ≡ ended
    go looping h ne = ends_looping k s.queue s.written s.pushed (omega arith)
    go locking h ne = ends_locking k s.queue s.written s.pushed (omega arith)
    go deciding h ne = absurd (ne refl)
    go blocked h ne = ends_locking k s.queue s.written s.pushed (omega arith)
    go draining h ne = ends_draining k s.queue s.written s.pushed (omega arith)
    go ended h ne = ends_ended k s.queue s.written s.pushed
    go dead h ne = absurd h
