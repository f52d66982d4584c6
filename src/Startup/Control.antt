-- ===== src/Startup/Control.antt =====
-- `SessionsControl::asyncStart` and `setupTun` (src/server/contexts/sessionscontrol.cpp), with the constructor of the
-- tunnel that `setupTun` calls first.
use vpverk.Base.{
  ℕ, ◌≡◌, refl, ap, ◌∙◌, Bool, true, false, not, ◌==◌, some, contains, List, ◌∷◌, ◌++◌,
}
use vpverk.Effect.{Outcome, ok, throw, abort, unfinished, M, continue, ◌>>◌}
use vpverk.Threads.{ThreadIds, main_thread, cussert, check_thread_is_not}
use vpverk.Tun.Descriptor.{Files, Answers, construct, Constructed, construct-Constructed}
use vpverk.Client.Host.{Command, Host, Ran, server_commands, setup_server_tun, setup_server_tun-Ran}
use vpverk.Startup.{main_ctx}
use vpverk.Startup.Contexts.{async_start}

-- What the start works on: the variables of the threads, the files, the host; whether the context of
-- the thread is set, the timer of the sweep is armed, and the loop of the tunnel has started.
pub record Control : Type 0 where
  pub threads : ThreadIds
  pub files : Files
  pub host : Host
  pub has_ctx : Bool
  pub timer_armed : Bool
  pub routing : Bool

abbrev on_threads : {A : Type 0} → M ThreadIds A → M Control A
on_threads f c = let (r, t) = f c.threads in (r, record c { threads = t })

abbrev on_files : {A : Type 0} → M Files A → M Control A
on_files f c = let (r, t) = f c.files in (r, record c { files = t })

abbrev pub on_host : {A : Type 0} → M Host A → M Control A
on_host f c = let (r, t) = f c.host in (r, record c { host = t })

module _ (succeeds : List Command → Command → Bool) where
  -- `Tun::instance()` finds the context that is set.
  unfoldable open_tun : Answers → M Control ℕ
  open_tun a c = on_files (construct (record a { has_ctx = c.has_ctx })) c

  -- `setupTun`
  unfoldable setup_with_tun : Answers → M Control (Unit {0})
  setup_with_tun a = do open_tun a; on_host (setup_server_tun succeeds)

  -- `asyncStart`, on the thread `t`
  unfoldable start_control : ℕ → Answers → M Control (Unit {0})
  start_control t a = do
    on_threads (async_start main_ctx t)
    λ c. (ok tt, record c { has_ctx = true; timer_armed = true })
    setup_with_tun a
    λ c. (ok tt, record c { routing = true })

  -- How the start ends: with the timer armed, the tunnel open, all the commands of the host run in their
  -- order, and the loop of the tunnel started; or in `cuabort`, with the loop not started.
  abbrev Controlled : Control → Outcome (Unit {0}) × Control → Type 0
  Controlled c (ok u, d) =
      (d.timer_armed ≡ true)
      × (d.routing ≡ true)
      × (d.host.ran ≡ c.host.ran ++ server_commands)
      × ((fd : ℕ) × (d.files.opened ≡ fd ∷ c.files.opened))
  Controlled c (throw e, d) = ⊥
  Controlled c (abort m, d) = d.routing ≡ c.routing
  Controlled c (unfinished, d) = ⊥

  -- The call returns or ends in `cuabort`.
  abbrev Checks : {A T : Type 0} → Outcome A × T → Type 0
  Checks (ok a, s) = Unit {0}
  Checks (throw e, s) = ⊥
  Checks (abort m, s) = Unit {0}
  Checks (unfinished, s) = ⊥

  async_start-Checks : (t : ℕ) (s : ThreadIds) → Checks (async_start main_ctx t s)
  unfolding async_start check_thread_is_not
  async_start-Checks t s = go (not (s main_thread == t)) (not (s main_thread == 0))
    where
      go :
          (a b : Bool)
          → Checks (continue (λ u r. cussert (not (r main_thread == 0)) r) (cussert a s))
      go false b = tt
      go true b = last (not (s main_thread == 0))
        where
          last : (b : Bool) → Checks (cussert b s)
          last true = tt
          last false = tt

  from_host :
      (c d : Control) (fd : ℕ) (x : Outcome (Unit {0}) × Host)
      → d.timer_armed ≡ true
      → d.routing ≡ c.routing
      → d.host ≡ c.host
      → d.files.opened ≡ fd ∷ c.files.opened
      → Ran succeeds server_commands d.host x
      → Controlled c
          (continue (λ u k. (ok tt, record k { routing = true })) (x.0, record d { host = x.1 }))
  from_host c d fd (ok u, h) armed same host opened (ran, kept) =
      (armed, refl, ran ∙ ap (λ (k : Host). k.ran ++ server_commands) host, (fd, opened))
  from_host c d fd (throw e, h) armed same host opened r = r
  from_host c d fd (abort m, h) armed same host opened r = same
  from_host c d fd (unfinished, h) armed same host opened r = r

  from_tun :
      (a : Answers) (c d : Control) (x : Outcome ℕ × Files)
      → d.timer_armed ≡ true
      → d.routing ≡ c.routing
      → d.host ≡ c.host
      → Constructed a c.files x
      → Controlled c (
          continue
            (λ u k. (ok tt, record k { routing = true }))
            (continue (λ fd. on_host (setup_server_tun succeeds)) (x.0, record d { files = x.1 })))
  from_tun a c d (ok fd, f) armed same host opened =
      from_host c (record d { files = f }) fd (setup_server_tun succeeds d.host) armed same host
        opened (setup_server_tun-Ran succeeds d.host)
  from_tun a c d (throw e, f) armed same host r = r
  from_tun a c d (abort m, f) armed same host r = same
  from_tun a c d (unfinished, f) armed same host r = r

  -- If the descriptor that the system gives is not open already, the start of the sessions' context either
  -- returns, with the timer of the sweep armed, the tunnel open, the commands of `setupTun` run in their
  -- order and the loop of the tunnel started, or it ends in `cuabort` before it starts that loop.
  start_control-Controlled :
      (t : ℕ) (a : Answers) (c : Control)
      → ((fd : ℕ) → a.descriptor ≡ some fd → contains fd c.files.opened ≡ false)
      → Controlled c (start_control t a c)
  unfolding start_control setup_with_tun open_tun
  start_control-Controlled t a c fresh =
      go (async_start main_ctx t c.threads) (async_start-Checks t c.threads)
    where
      b : Answers
      b = record a { has_ctx = true }

      go :
          (x : Outcome (Unit {0}) × ThreadIds)
          → Checks x
          → Controlled c (
              continue
                (λ u. do
                  λ k. (ok tt, record k { has_ctx = true; timer_armed = true })
                  setup_with_tun a
                  λ k. (ok tt, record k { routing = true }))
                (x.0, record c { threads = x.1 }))
      go (ok u, s) k =
          from_tun b c (record c { threads = s; has_ctx = true; timer_armed = true })
            (construct b c.files) refl refl refl (construct-Constructed b c.files fresh)
      go (throw e, s) k = absurd k
      go (abort m, s) k = refl
      go (unfinished, s) k = absurd k
