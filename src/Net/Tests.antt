-- ===== src/Net/Tests.antt =====
-- Transfers over the socket in a box, and the theorems at them.
use vpverk.Base.{◌≡◌, refl, arith, [], ◌∷◌}
use vpverk.Effect.{value, ok}
use vpverk.Net.Tcp.{reliable_is_open}
use vpverk.Net.Send.{send, send_loop, Sends, send-Sends}
use vpverk.Net.Read.{read_some, read_some_unreliable, read_loop, ReadsAll, Fits, read_some-ReadsAll}
use vpverk.Net.Wire.{Wire, wire}

abbrev idle : Wire
idle = record { waiting = 7 ∷ 8 ∷ 9 ∷ []; sent = []; received = [] }

send-idle :
    send wire (1 ∷ 2 ∷ 3 ∷ 4 ∷ 5 ∷ []) idle
    ≡ (ok (value tt), record idle { sent = 1 ∷ 2 ∷ 3 ∷ 4 ∷ 5 ∷ [] })
unfolding send send_loop reliable_is_open
send-idle = refl

read_some-idle :
    read_some wire 3 0 idle
    ≡ (ok (value (7 ∷ 8 ∷ 9 ∷ [])), record { waiting = []; sent = []; received = 7 ∷ 8 ∷ 9 ∷ [] })
unfolding read_some read_loop read_some_unreliable reliable_is_open
read_some-idle = refl

send-Sends_example :
    Sends wire (1 ∷ 2 ∷ 3 ∷ 4 ∷ 5 ∷ []) idle (send wire (1 ∷ 2 ∷ 3 ∷ 4 ∷ 5 ∷ []) idle)
send-Sends_example = send-Sends wire (1 ∷ 2 ∷ 3 ∷ 4 ∷ 5 ∷ []) idle (omega arith) (omega arith)

-- Four bytes are wanted and three wait.
read_some-ReadsAll_example :
    ReadsAll wire 4 idle (read_some wire 4 0 idle) × Fits wire 4 (read_some wire 4 0 idle)
read_some-ReadsAll_example = read_some-ReadsAll wire 4 0 idle (omega arith)
