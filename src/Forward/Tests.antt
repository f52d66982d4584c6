-- ===== src/Forward/Tests.antt =====
-- A packet to 10.123.0.7, whose route is still in the queue.
use vpverk.Base.{ℕ, String, ◌≡◌, ◌++◌, refl, arith, true, Option, some, List, [], ◌∷◌, replicate}
use vpverk.Effect.{abort}
use vpverk.Router.{Peer, Route, Router}
use vpverk.Router.Counts.{popped}
use vpverk.Forward.{forward, probe_packet}
use vpverk.Forward.Owner.{forward_aborts}

abbrev guest : Peer
guest = record { con = 1; aes = some 1 }

abbrev requests : List (Option Route)
requests = some (record { add_or_remove = true; addr = 175833095; peer = guest }) ∷ []

abbrev packet : List ℕ
packet = 69 ∷ replicate 15 0 ++ 10 ∷ 123 ∷ 0 ∷ 7 ∷ []

abbrev zeros : ℕ → ℕ
zeros i = 0

forward_aborts_example :
    (text : String) × (m : Router) × (forward zeros (probe_packet zeros) requests packet []
      ≡ some (abort text, m))
unfolding popped
forward_aborts_example = forward_aborts zeros requests packet [] (omega arith) refl refl
