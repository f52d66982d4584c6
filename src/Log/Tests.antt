-- ===== src/Log/Tests.antt =====
-- A log of two messages.
use vpverk.Base.{◌≡◌, refl, arith, List, [], ◌∷◌}
use vpverk.Log.{
  Message, server, session, Event, pushes, works, requests_stop, notifies, blocked, ended, log_run,
  log_step, work_step, begin,
}
use vpverk.Log.Files.{files}
use vpverk.Log.Wakeup.{only_works, stop_missed, stop_heard}

abbrev hello : Message
hello = record { target = session; text = 104 ∷ [] }

abbrev bye : Message
bye = record { target = server; text = 98 ∷ [] }

abbrev story : List Event
story = works ∷ works ∷ works ∷ pushes hello ∷ works ∷ works ∷ works ∷ works ∷ pushes bye ∷ []

-- The worker has found the queue empty.
stop_missed_example :
    (log_run files
      (requests_stop ∷ notifies ∷ works ∷ only_works 9)
      (log_run files (works ∷ works ∷ []) begin)).place
    ≡ blocked
unfolding log_run log_step work_step
stop_missed_example = stop_missed files 9 (log_run files (works ∷ works ∷ []) begin) refl

-- The worker waits.
stop_heard_example :
    (log_run files
      (requests_stop ∷ notifies ∷ only_works 3)
      (log_run files (works ∷ works ∷ works ∷ []) begin)).place
    ≡ ended
unfolding log_run log_step work_step
stop_heard_example =
    stop_heard 3 (log_run files (works ∷ works ∷ works ∷ []) begin) (omega arith) tt (λ e. cc)
