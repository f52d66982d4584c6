-- ===== src/Startup.antt =====
-- The start of the server: `main` (src/server/main.cpp), `onAsyncStart` of each context
-- (src/server/contexts), and `SessionsControl::asyncStart` (src/server/contexts/sessionscontrol.cpp). The store of
-- the contexts and the threads that it starts are not under the sources: whether it accepts the
-- contexts and starts them is an argument, as are the document of the settings and the key file.
pub mod Contexts
pub mod Control
pub mod Ready
mod Tests
use vpverk.Base.{
  ℕ, String, Bool, true, false, Option, none, some, List, [], ◌∷◌, ◌++◌, length, ◌==◌,
  if◌then◌else◌,
}
use vpverk.Effect.{Exception, Outcome, ok, throw, abort, unfinished, M, continue, ◌>>=◌, ◌>>◌}
use vpverk.Rsa.{Checked, RsaKey}
use vpverk.Settings.{Json, SettingsSnapshot, read}
use vpverk.Client.{same_bytes}
use vpverk.Client.Main.{no_logdir}

-- `ContextTargets`
pub data Context : Type 0 where
  main_ctx settings_ctx statistics_ctx : Context

-- The number of a context
unfoldable pub index : Context → ℕ
index main_ctx = 0
index settings_ctx = 1
index statistics_ctx = 2

-- What `main` has done so far; `functions` is the vector that goes through the calls of `onAsyncStart`.
pub record Server : Type 0 where
  pub log_dir : Option (List ℕ)
  pub settings : SettingsSnapshot
  pub functions : List Context
  pub started : Bool
  pub accepting : Bool

-- `onAsyncStart`, with its `assert`
unfoldable pub on_async_start : Context → M Server (Unit {0})
on_async_start c s =
    if length s.functions == index c
    then (ok tt, record s { functions = s.functions ++ c ∷ [] })
    else (abort "assert: previousFuncs.size()", s)

-- The calls of `onAsyncStart` in the chain of `main`
unfoldable pub register_all : List Context → M Server (Unit {0})
register_all [] s = (ok tt, s)
register_all (c ∷ cs) s = (do on_async_start c; register_all cs) s

-- `_Exit(1)`, or what follows
abbrev pub or_exit : Bool → M Server ℕ → M Server ℕ
or_exit true rest s = rest s
or_exit false rest s = (ok 1, s)

-- `settings.read("conf.json")`
unfoldable pub read_settings : Option Json → (String → Checked RsaKey) → M Server (Unit {0})
read_settings js pem s = let (r, t) = read js pem s.settings in (r, record s { settings = t })

-- The directory of the log, from the argument and the directory of the executable
unfoldable pub log_directory : List ℕ → List ℕ → List ℕ
log_directory exec_dir logdir = if same_bytes logdir no_logdir then exec_dir else logdir

-- `std::filesystem::create_directories(logdir)`, by what it throws
abbrev create_directories : Option Exception → M Server (Unit {0})
create_directories none s = (ok tt, s)
create_directories (some e) s = (throw e, s)

-- `main`, by the code that the program ends with. `registers` and `starts` are what the store answers,
-- `created` is what the creation of the directory throws, and `joined` what happens to the server from
-- the start of accepting until all contexts have joined.
unfoldable pub main :
    List ℕ
    → List ℕ
    → Option Exception
    → Option Json
    → (String → Checked RsaKey)
    → Bool
    → Bool
    → M Server (Unit {0})
    → M Server ℕ
main exec_dir logdir created js pem registers starts joined = do
  create_directories created
  λ s. (ok tt, record s { log_dir = some (log_directory exec_dir logdir) })
  read_settings js pem
  or_exit registers (do
    register_all (main_ctx ∷ settings_ctx ∷ statistics_ctx ∷ [])
    or_exit starts
        (do λ s. (ok tt, record s { started = true; accepting = true }); joined; λ s. (ok 0, s)))
