-- ===== src/Client/Main.antt =====
-- `main` of the client (src/client/main.cpp), and the handler of the signals that `startAsync` sets
-- (src/client/async.cpp). What the parser of the command line gives, what the network and the files
-- give, and the handlers that `ctx.run` calls, in their order, are arguments.
use vpverk.Base.{
  ℕ, String, Bool, true, Option, none, some, List, [], ◌∷◌, ◌++◌, ◌==◌, if◌then◌else◌,
}
use vpverk.Effect.{ErrorCode, Expected, Outcome, ok, throw, abort, unfinished, M, ◌>>=◌, ◌>>◌}
use vpverk.Net.{Socket}
use vpverk.Aes.{Cipher}
use vpverk.Session.{pure, or_throw}
use vpverk.Client.{End, same_bytes, tun_round, socket_round, or_abort}
use vpverk.Client.Host.{Command, restore_network}
use vpverk.Client.Start.{Given, Client, on_end, on_host, start_async}

-- `cvk::args`
pub record Args : Type 0 where
  pub server_ip : List ℕ
  pub login : List ℕ
  pub key_path : List ℕ
  pub port : ℕ

-- `"0"`, for what is not given
abbrev pub not_given : List ℕ
not_given = b'0' ∷ []

abbrev pub no_logdir : List ℕ
no_logdir = b'n' ∷ b'o' ∷ b'n' ∷ b'e' ∷ []

-- What the parser fills in.
pub record CommandLine : Type 0 where
  pub args : Args
  pub restore : Bool
  pub logdir : List ℕ

-- The result of the parser: its message, or what it filled in.
pub data Parsed : Type 0 where
  refused : String → Parsed
  parsed : CommandLine → Parsed

-- The directory of the executable, and `public.pem` in it
pub record Paths : Type 0 where
  pub exec_dir : List ℕ
  pub public_pem : List ℕ

-- What is asked for when an argument is missing.
unfoldable pub missing : Args → Option String
missing a =
    if a.port == 0
    then some "provide '--port=<int>;\n"
    else if same_bytes a.server_ip not_given
    then some "provide '--server_ip=\"<string>\";\n"
    else if same_bytes a.login not_given
    then some "provide '--login=\"<string>\";\n"
    else none

unfoldable pub log_directory : Paths → List ℕ → List ℕ
log_directory p logdir = if same_bytes logdir no_logdir then p.exec_dir else logdir

unfoldable pub key_file : Paths → List ℕ → List ℕ
key_file p path = if same_bytes path not_given then p.public_pem else path

-- A handler that `ctx.run` calls: the tunnel gave a packet, something is on the socket, or the wait of
-- the signals is over.
pub data Handler : Type 0 where
  tunnel : List ℕ → Handler
  socket : Handler
  signaled : Option ErrorCode → Handler

-- `catch(std::exception const& e){ cuabort("caught exception: " …) }` of `main`
abbrev pub caught : {A T : Type 0} → Outcome A × T → Outcome A × T
caught (throw e, s) = (abort "caught exception: ", s)
caught (ok a, s) = (ok a, s)
caught (abort m, s) = (abort m, s)
caught (unfinished, s) = (unfinished, s)

module _ (C : Cipher) (S : Socket) where
  -- `stopped` and `canceled` are what the handler of the signals did; `told` is what went to `std::cerr`.
  pub record Program : Type 0 where
    pub client : Client C S
    pub stopped : Bool
    pub canceled : Bool
    pub log_dir : Option (List ℕ)
    pub told : List String

  abbrev pub on_client : {A : Type 0} → M (Client C S) A → M Program A
  on_client f p = let (r, c) = f p.client in (r, record p { client = c })

  -- A round of a loop, unless the stop is requested.
  abbrev pub unless_stopped : M (End C S) (Unit {0}) → M Program (Unit {0})
  unless_stopped f p =
      if p.stopped then (ok tt, p) else on_client (on_end C S (λ e. or_abort (f e))) p

  -- `signals_handle`
  unfoldable pub signals_handle : Option ErrorCode → M Program (Unit {0})
  signals_handle (some c) p = (abort "signal handler: ", p)
  signals_handle none p = (ok tt, record p { stopped = true; canceled = true })

  unfoldable pub handle : Handler → M Program (Unit {0})
  handle (tunnel packet) = unless_stopped (tun_round C S packet)
  handle socket = unless_stopped (socket_round C S)
  handle (signaled c) = signals_handle c

  -- `ctx.run()`
  unfoldable pub ctx_run : List Handler → M Program (Unit {0})
  ctx_run [] = pure tt
  ctx_run (h ∷ hs) = do handle h; ctx_run hs

  unfoldable pub tell : String → M Program (Unit {0})
  tell t p = (ok tt, record p { told = p.told ++ t ∷ [] })

  module _ (succeeds : List Command → Command → Bool) (make_address : List ℕ → Expected ℕ)
      (outside : ℕ → ℕ → List ℕ → Given) where
    -- `startAsync` with the arguments, and what becomes of its result
    unfoldable pub start : Args → M Program (Unit {0})
    start a p = caught (
        on_client
          (do
            ip ← or_throw "" (make_address a.server_ip)
            start_async C S succeeds (outside ip a.port a.key_path) a.login)
          p)

    unfoldable pub start_up : Paths → CommandLine → List Handler → M Program ℕ
    start_up paths c handlers = do
      λ p. (ok tt, record p { log_dir = some (log_directory paths c.logdir) })
      start (record c.args { key_path = key_file paths c.args.key_path })
      ctx_run handlers
      on_client (on_host C S (restore_network succeeds))
      pure 0

    -- `main`, by the code that the program ends with
    unfoldable pub main : Paths → Parsed → List Handler → M Program ℕ
    main paths (refused message) handlers = do tell message; pure 1
    main paths (parsed c) handlers =
        if c.restore
        then (do on_client (on_host C S (restore_network succeeds)); pure 0)
        else elim (missing c.args) [
          | some t ↦ (do tell t; pure 1)
          | none ↦ start_up paths c handlers
        ]
