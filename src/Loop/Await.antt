-- ===== src/Loop/Await.antt =====
-- `co_await` of a future (src/shared/other_coroutinethings.hpp). The future is the library's: it hands what
-- its coroutine returned or threw to the callback that has subscribed.
use vpverk.Base.{◌≡◌, refl, Bool, true, false, if◌then◌else◌}
use vpverk.Effect.{Exception, Outcome, ok, throw, abort, unfinished, M, continue}

-- `tl::expected<T, std::exception_ptr>`
pub data Settled (A : Type 0) : Type 0 where
  returned : A → Settled A
  threw : Exception → Settled A

unfoldable await_ready : {S : Type 0} → Bool → M S Bool
await_ready has_ctx s = if has_ctx then (ok false, s) else (abort "cussert: t_ctx", s)

module _ {S A : Type 0} where
  unfoldable await_resume : Settled A → M S A
  await_resume (returned a) s = (ok a, s)
  await_resume (threw e) s = (throw e, s)

  -- What follows the suspension: the callback keeps what it is handed, and resumes.
  unfoldable delivered : Outcome A × S → Outcome A × S
  unfolding await_resume
  delivered (ok a, s) = await_resume (returned a) s
  delivered (throw e, s) = await_resume (threw e) s
  delivered (abort m, s) = (abort m, s)
  delivered (unfinished, s) = (unfinished, s)

  unfoldable co_await : Bool → M S A → M S A
  unfolding await_ready
  co_await has_ctx body s = continue (λ ready. λ t. delivered (body t)) (await_ready has_ctx s)

  same : (x : Outcome A × S) → delivered x ≡ x
  unfolding delivered
  same (ok a, s) = refl
  same (throw e, s) = refl
  same (abort m, s) = refl
  same (unfinished, s) = refl

  -- On a thread with a context, to await a coroutine comes to the same as to call it: its value, its
  -- exception and what it leaves behind.
  co_await-call : (body : M S A) (s : S) → co_await true body s ≡ body s
  unfolding co_await
  co_await-call body s = same (body s)
