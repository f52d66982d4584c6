-- ===== src/Startup/Contexts.antt =====
-- The threads of the contexts: `asyncStart` of each (src/server/contexts) with the checks of threads
-- (src/shared/threadchecking.hpp). The store starts each on a thread of its own; in which order they run is open.
use vpverk.Base.{ℕ, ◌≡◌, ◌≢◌, refl, sym, ◌∙◌, false, not, ◌==◌, List, [], ◌∷◌, ◌⊎◌, inl, inr, arith}
use vpverk.Effect.{Outcome, ok, throw, abort, unfinished, M, ◌>>◌}
use vpverk.Effect.Post.{Post, continue-Post, Post-weaken}
use vpverk.Threads.{
  Slot, main_thread, settings_thread, stats_thread, ThreadIds, cussert, check_thread,
  check_thread_is_not,
}
use vpverk.Threads.Owner.{IsApart, MayOwn, Decides, check_thread-Decides}
use vpverk.Startup.{Context, main_ctx, settings_ctx, statistics_ctx}

-- The checks at the start of `asyncStart`, on the thread `t`
unfoldable pub async_start : Context → ℕ → M ThreadIds (Unit {0})
async_start main_ctx t = do
  check_thread_is_not t main_thread
  λ s. cussert (not (s main_thread == 0)) s
async_start settings_ctx t = check_thread t settings_thread
async_start statistics_ctx t = check_thread t stats_thread

-- The contexts `cs` start, in this order, each on its own thread.
unfoldable pub start_contexts : (Context → ℕ) → List Context → M ThreadIds (Unit {0})
start_contexts thread [] s = (ok tt, s)
start_contexts thread (c ∷ cs) s = (do async_start c (thread c); start_contexts thread cs) s

-- `main`, on the thread `m`: its own check, and the start of the contexts
unfoldable pub start_threads : ℕ → (Context → ℕ) → List Context → M ThreadIds (Unit {0})
start_threads m thread cs = do check_thread m main_thread; start_contexts thread cs

-- The thread of `main`, and those of the contexts, are different.
pub record IsSeparate (m : ℕ) (thread : Context → ℕ) : Type 0 where
  pub real : m ≢ 0
  pub own : (c : Context) → thread c ≢ 0
  pub not_main : (c : Context) → m ≢ thread c
  pub settings_stats : thread settings_ctx ≢ thread statistics_ctx

-- A variable is empty, or names the thread that it is for.
pub record Named (m : ℕ) (thread : Context → ℕ) (s : ThreadIds) : Type 0 where
  pub main_here : s main_thread ≡ m
  pub settings_here : (s settings_thread ≡ 0) ⊎ (s settings_thread ≡ thread settings_ctx)
  pub stats_here : (s stats_thread ≡ 0) ⊎ (s stats_thread ≡ thread statistics_ctx)
  apart : IsApart s

-- The call returns, with `P` of what it leaves.
abbrev pub Passes : (ThreadIds → Type 0) → Outcome (Unit {0}) × ThreadIds → Type 0
Passes P = Post (λ u s. P s) (λ e s. ⊥)

settings_main : Path Slot settings_thread main_thread → ⊥
settings_main e = cc

-- The variable `i` names the thread `t`, no thread is in two variables, and no other variable changed.
record Changed (t : ℕ) (i : Slot) (s r : ThreadIds) : Type 0 where
  own : r i ≡ t
  apart : IsApart r
  same : (j : Slot) → (r j ≡ s j) ⊎ (j ≡ i)

-- A check that may pass passes, and changes its own variable at most.
checked :
    (t : ℕ) (i : Slot) (s : ThreadIds)
    → t ≢ 0
    → IsApart s
    → MayOwn t i s
    → Passes (Changed t i s) (check_thread t i s)
checked t i s real p may = go (check_thread t i s) (check_thread-Decides t i s real p)
  where
    go : (x : Outcome (Unit {0}) × ThreadIds) → Decides t i s x → Passes (Changed t i s) x
    go (ok u, r) (_, own, a, same) = record {
      own = own;
      apart = a;
      same = λ j. elim (same j) [ inl e ↦ inl e | inr (e, z) ↦ inr e ];
    }
    go (throw e, r) d = d
    go (abort m, r) d = d may
    go (unfinished, r) d = d

weaken :
    (P Q : ThreadIds → Type 0) (x : Outcome (Unit {0}) × ThreadIds)
    → Passes P x
    → ((r : ThreadIds) → P r → Q r)
    → Passes Q x
weaken P Q x p k =
    Post-weaken (λ u s. P s) (λ u s. Q s) (λ e s. ⊥) (λ e s. ⊥) x p (λ u s. k s) (λ e s z. z)

-- The variable `j` is not the one that the check may have changed.
unchanged : (i j : Slot) (r s : ThreadIds) → (j ≡ i → ⊥) → (r j ≡ s j) ⊎ (j ≡ i) → r j ≡ s j
unchanged i j r s ne (inl e) = e
unchanged i j r s ne (inr e) = absurd (ne e)

module _ (m : ℕ) (thread : Context → ℕ) (h : IsSeparate m thread) where
  settings_may : (s : ThreadIds) → Named m thread s → MayOwn (thread settings_ctx) settings_thread s
  settings_may s n = elim n.settings_here [
    | inr own ↦ inl own
    | inl empty ↦ inr (empty, others empty)
  ]
    where
      others : s settings_thread ≡ 0 → (j : Slot) → s j ≢ thread settings_ctx
      others z main_thread = λ e. h.not_main settings_ctx (sym n.main_here ∙ e)
      others z settings_thread = λ e. h.own settings_ctx (sym e ∙ z)
      others z stats_thread = elim n.stats_here [
        | inl zero_there ↦ λ e. h.own settings_ctx (sym e ∙ zero_there)
        | inr other ↦ λ e. h.settings_stats (sym e ∙ other)
      ]

  stats_may : (s : ThreadIds) → Named m thread s → MayOwn (thread statistics_ctx) stats_thread s
  stats_may s n = elim n.stats_here [ inr own ↦ inl own | inl empty ↦ inr (empty, others empty) ]
    where
      others : s stats_thread ≡ 0 → (j : Slot) → s j ≢ thread statistics_ctx
      others z main_thread = λ e. h.not_main statistics_ctx (sym n.main_here ∙ e)
      others z stats_thread = λ e. h.own statistics_ctx (sym e ∙ z)
      others z settings_thread = elim n.settings_here [
        | inl zero_there ↦ λ e. h.own statistics_ctx (sym e ∙ zero_there)
        | inr other ↦ λ e. h.settings_stats (sym other ∙ e)
      ]

  async_start-Named :
      (c : Context) (s : ThreadIds)
      → Named m thread s
      → Passes (Named m thread) (async_start c (thread c) s)
  unfolding async_start check_thread_is_not
  async_start-Named main_ctx s n =
      let other : (s main_thread == thread main_ctx) ≡ false =
        (let k = h.not_main main_ctx in rw (n.main_here) (ground arith)) in
      let set : (s main_thread == 0) ≡ false =
        (let k = h.real in rw (n.main_here) (ground arith)) in
      rw (other, set) n
  async_start-Named settings_ctx s n =
      weaken (Changed (thread settings_ctx) settings_thread s) (Named m thread)
        (check_thread (thread settings_ctx) settings_thread s)
        (checked (thread settings_ctx) settings_thread s (h.own settings_ctx) n.apart
          (settings_may s n))
        λ r c. record {
          main_here =
              unchanged settings_thread main_thread r s (λ e. cc) (c.same main_thread)
              ∙ n.main_here;
          settings_here = inr c.own;
          stats_here =
              rw (unchanged settings_thread stats_thread r s (λ e. cc) (c.same stats_thread))
                n.stats_here;
          apart = c.apart;
        }
  async_start-Named statistics_ctx s n =
      weaken (Changed (thread statistics_ctx) stats_thread s) (Named m thread)
        (check_thread (thread statistics_ctx) stats_thread s)
        (checked (thread statistics_ctx) stats_thread s (h.own statistics_ctx) n.apart
          (stats_may s n))
        λ r c. record {
          main_here =
              unchanged stats_thread main_thread r s (λ e. cc) (c.same main_thread) ∙ n.main_here;
          stats_here = inr c.own;
          settings_here =
              rw (unchanged stats_thread settings_thread r s (λ e. cc) (c.same settings_thread))
                n.settings_here;
          apart = c.apart;
        }

  start_contexts-Named :
      (cs : List Context) (s : ThreadIds)
      → Named m thread s
      → Passes (Named m thread) (start_contexts thread cs s)
  unfolding start_contexts
  start_contexts-Named [] s n = n
  start_contexts-Named (c ∷ cs) s n =
      continue-Post (λ u s. Named m thread s) (λ u s. Named m thread s) (λ e s. ⊥)
        (λ u. start_contexts thread cs) (async_start c (thread c) s) (async_start-Named c s n)
        (λ u r k. start_contexts-Named cs r k)

  -- If the threads of `main` and of the contexts are different, no check of threads fails while the
  -- server starts, in whatever order the contexts do, and each variable then is empty or names the
  -- thread that it is for.
  pub start_threads-Passes :
      (cs : List Context) → Passes (Named m thread) (start_threads m thread cs (λ j. 0))
  unfolding start_threads
  start_threads-Passes cs =
      continue-Post (λ u s. Named m thread s) (λ u s. Named m thread s) (λ e s. ⊥)
        (λ u. start_contexts thread cs) (check_thread m main_thread (λ j. 0)) first
        (λ u r k. start_contexts-Named cs r k)
    where
      nothing : IsApart (λ j. 0)
      nothing = record { main_settings = λ e. e; main_stats = λ e. e; settings_stats = λ e. e }

      first : Passes (Named m thread) (check_thread m main_thread (λ j. 0))
      first =
          weaken (Changed m main_thread (λ j. 0)) (Named m thread)
            (check_thread m main_thread (λ j. 0))
            (checked m main_thread (λ j. 0) h.real nothing (inr (refl, λ j e. h.real (sym e))))
            λ r c. record {
              main_here = c.own;
              settings_here = inl (
                  unchanged main_thread settings_thread r (λ j. 0) (λ e. cc)
                    (c.same settings_thread));
              stats_here =
                  inl
                    (unchanged main_thread stats_thread r (λ j. 0) (λ e. cc) (c.same stats_thread));
              apart = c.apart;
            }
