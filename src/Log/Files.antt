-- ===== src/Log/Files.antt =====
-- The streams of the log: each target has its own (`Logger::init`, src/shared/log/logger.hpp).
use vpverk.Base.{◌≡◌, refl, [], ◌∷◌}
use vpverk.Effect.{ok}
use vpverk.FlatMap.{
  FlatMap, insert, position, insert_at, at_try_first, first_keys, at, value_at, binary_search,
  search, check_last,
}
use vpverk.Log.{
  Target, server, client, session, target_id, Stream, server_log, client_log, session_log, init,
}

abbrev pub stream_of : Target → Stream
stream_of server = server_log
stream_of client = client_log
stream_of session = session_log

abbrev pub files : FlatMap Stream
files = record { keys = 0 ∷ 1 ∷ 2 ∷ []; vals = server_log ∷ client_log ∷ session_log ∷ [] }

init-files : init (record { keys = []; vals = [] }) ≡ (ok tt, files)
unfolding insert position insert_at
init-files = refl

pub at_try_first-files : (t : Target) → at_try_first files 1 (target_id t) ≡ ok (stream_of t)
unfolding at_try_first first_keys at value_at binary_search search check_last
at_try_first-files server = refl
at_try_first-files client = refl
at_try_first-files session = refl
