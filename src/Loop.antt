-- ===== src/Loop.antt =====
-- Coroutines that are resumed by the event loop of their thread (src/shared/other_coroutinethings.hpp:
-- `RESCHEDULE_HERE` and `reschedule`). The loop itself, asio's `io_context`, is not under the sources:
-- which of the handlers that were posted it calls next is an argument.
pub mod Await
pub mod Fair
pub mod Detached
use vpverk.Base.{ℕ, Bool, true, Option, none, some, List, [], ◌∷◌, ◌++◌, contains, if◌then◌else◌}
use vpverk.Effect.{Outcome, ok, abort, M, continue, ◌>>◌}

-- What a coroutine does from where it is resumed to its next suspension: the state that it leaves, the
-- coroutines that it posts, itself among them if it reschedules, and whether it comes to its end.
pub record Turn (T : Type 0) : Type 0 where
  pub state : T
  pub posts : List ℕ
  pub ended : Bool

-- The coroutines that are posted, in order, those that came to their end, and those that were resumed so
-- far, in order.
pub record Loop (T : Type 0) : Type 0 where
  pub state : T
  pub ready : List ℕ
  pub over : List ℕ
  pub resumed : List ℕ

-- What happens next on the thread: the loop calls a handler, or the end of an operation posts a
-- coroutine.
pub data Happening : Type 0 where
  turns : Happening
  posts : ℕ → Happening

module _ {T : Type 0} (pick : List ℕ → Option (ℕ × List ℕ)) (body : ℕ → T → Turn T) where
  -- `RESCHEDULE_HERE(h)`: its `cussert`, and the post
  unfoldable pub reschedule_here : Bool → ℕ → M (Loop T) (Unit {0})
  reschedule_here has_ctx h l =
      if has_ctx
      then (ok tt, record l { ready = l.ready ++ h ∷ [] })
      else (abort "cussert: t_ctx.has_value()", l)

  -- The handler that was posted: its `cussert`, and `h.resume()`
  unfoldable pub resume : ℕ → M (Loop T) (Unit {0})
  resume h l =
      let t = body h l.state in
      if contains h l.over then (abort "cussert: not h.done()", l) else (
        ok tt,
        record {
          state = t.state;
          ready = l.ready ++ t.posts;
          over = if t.ended then h ∷ l.over else l.over;
          resumed = l.resumed ++ h ∷ [];
        },
      )

  -- One handler is called, if one is posted.
  unfoldable pub turn : M (Loop T) (Unit {0})
  turn l = elim (pick l.ready) [
    | none ↦ (ok tt, l)
    | some (h, rest) ↦ resume h (record l { ready = rest })
  ]

  unfoldable pub happens : Happening → M (Loop T) (Unit {0})
  happens turns = turn
  happens (posts h) = reschedule_here true h

  unfoldable pub loop_run : List Happening → M (Loop T) (Unit {0})
  loop_run [] l = (ok tt, l)
  loop_run (e ∷ events) l = (do happens e; loop_run events) l
