-- ===== src/Client/Left.antt =====
-- What the start of the client (`startAsync`, src/client/async.cpp) leaves on its host.
use vpverk.Base.{ℕ, ◌≡◌, refl, sym, ◌∙◌, Bool, List, [], ◌++◌}
use mathlib.Core.List.{append-nil}
use vpverk.Net.{Socket}
use vpverk.Aes.{Cipher}
use vpverk.Client.Host.{Command, Host, client_commands}
use vpverk.Client.Start.{Client}

-- The host was left with the first of the commands that `setupTun` runs for some address, and with no
-- other.
pub record Left (h k : Host) : Type 0 where
  pub ip : ℕ
  pub done : List Command
  pub rest : List Command
  pub part : client_commands ip ≡ done ++ rest
  pub ran : k.ran ≡ h.ran ++ done

pub Left-same : (h k : Host) → k.ran ≡ h.ran → Left h k
Left-same h k e = record {
  ip = 0;
  done = [];
  rest = client_commands 0;
  part = refl;
  ran = e ∙ sym (append-nil h.ran);
}

module _ (C : Cipher) (S : Socket) where
  module _ (succeeds : List Command → Command → Bool) where
    -- The host is as it was at the start.
    abbrev pub Same : Host → Client C S → Type 0
    Same h c = c.host.ran ≡ h.ran

    abbrev pub LeftBy : Host → Client C S → Type 0
    LeftBy h c = Left h c.host
