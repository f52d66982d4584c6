-- ===== src/Startup/Tests.antt =====
-- Starts of the server, and the theorems at them.
use vpverk.Base.{ℕ, ◌≢◌, String, ◌≡◌, refl, true, false, none, some, [], ◌∷◌, arith}
use vpverk.Effect.{ok}
use vpverk.Rsa.{Checked, good, RsaKey, private_key}
use vpverk.Rsa.Box.{box_key}
use vpverk.Settings.{Json, read}
use vpverk.Startup.{
  Server, Context, main_ctx, settings_ctx, statistics_ctx, main, read_settings, register_all,
  on_async_start, index, log_directory,
}
use vpverk.Startup.Contexts.{IsSeparate, Named, Passes, start_threads, start_threads-Passes}
use vpverk.Client.{same_bytes}

abbrev off : Server
off = record {
  log_dir = none;
  settings = record { allowed_logins = []; private_key = none; port = 0; max_alive_time = 77 };
  functions = [];
  started = false;
  accepting = false;
}

abbrev conf : Json
conf = record {
  port = some 443;
  max_alive_time = some 3600;
  private_key_path = some "private.pem";
  allowed_logins = some ((66 ∷ []) ∷ []);
}

abbrev pem : String → Checked RsaKey
pem path = good (record { key_type = private_key; key = box_key })

-- The server starts, takes connections, and ends when all contexts have joined.
main_run :
    main
      (47 ∷ [])
      (47 ∷ 108 ∷ [])
      none
      (some conf)
      pem
      true
      true
      (λ s. (ok tt, record s { accepting = false }))
      off
    ≡ (
      ok 0,
      record off {
        log_dir = some (47 ∷ 108 ∷ []);
        settings = (read (some conf) pem off.settings).1;
        functions = main_ctx ∷ settings_ctx ∷ statistics_ctx ∷ [];
        started = true;
      },
    )
unfolding main read_settings register_all on_async_start index log_directory read same_bytes
main_run = refl

-- The thread of each context
abbrev own_thread : Context → ℕ
own_thread main_ctx = 21
own_thread settings_ctx = 22
own_thread statistics_ctx = 23

differ : (c : Context) → 20 ≢ own_thread c
differ main_ctx = λ e. omega (arith, e)
differ settings_ctx = λ e. omega (arith, e)
differ statistics_ctx = λ e. omega (arith, e)

there : (c : Context) → own_thread c ≢ 0
there main_ctx = λ e. omega (arith, e)
there settings_ctx = λ e. omega (arith, e)
there statistics_ctx = λ e. omega (arith, e)

separate : IsSeparate 20 own_thread
separate = record {
  real = λ e. omega (arith, e);
  own = there;
  not_main = differ;
  settings_stats = λ e. omega (arith, e);
}

start_threads-Passes_example :
    Passes
      (Named 20 own_thread)
      (start_threads 20 own_thread (statistics_ctx ∷ main_ctx ∷ settings_ctx ∷ []) (λ j. 0))
start_threads-Passes_example =
    start_threads-Passes 20 own_thread separate (statistics_ctx ∷ main_ctx ∷ settings_ctx ∷ [])
