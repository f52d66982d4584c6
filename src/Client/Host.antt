-- ===== src/Client/Host.antt =====
-- The commands that set up the network of the host and take it back: `system_` and `setupTun`
-- (src/client/async.cpp), `restore_network` (src/client/main.cpp), and `SessionsControl::setupTun`
-- (src/server/contexts/sessionscontrol.cpp). Whether a command succeeds, given those that ran before it,
-- is an argument: the shell and the kernel are not under the sources.
use vpverk.Base.{
  ℕ, ◌*◌, ◌+◌, ◌^◌, ◌≡◌, refl, sym, ap, ◌∙◌, Bool, false, Option, none, some, List, [], ◌∷◌, ◌++◌,
  if◌then◌else◌, Bool-cases, inl, inr, map, subst,
}
use mathlib.Core.List.{append_assoc, append-nil}
use vpverk.Effect.{Outcome, ok, throw, abort, unfinished, M, continue, ◌>>◌}

-- The commands, by what varies in their text. A route is given by its destination, of one bit.
pub data Command : Type 0 where
  -- `ip link set tun0 up`, `ip link set tun0 down`
  link_up link_down : Command
  -- `ip addr add A/16 dev tun0`, `ip addr del A/16 dev tun0`
  addr_add addr_del : ℕ → Command
  -- `ip route add D/1 via A dev tun0`, `ip route del D/1 via A dev tun0`
  route_add route_del : ℕ → ℕ → Command
  -- `sysctl -w net.ipv4.ip_forward=1`
  forward_on : Command
  -- `iptables -t nat -A POSTROUTING -s 10.123.0.0/16 -o eth0 -j MASQUERADE`
  masquerade : Command

-- The address that the server gives to its own end, 10.123.0.1.
abbrev server_address : ℕ
server_address = 10 * 2 ^ 24 + 123 * 2 ^ 16 + 1

-- What the program leaves on the host: the commands that it ran, and the number in `tun_ip.raw`.
pub record Host : Type 0 where
  pub ran : List Command
  pub tun_ip : Option ℕ

-- The commands of `setupTun` of the client
abbrev pub client_commands : ℕ → List Command
client_commands ip = link_up ∷ addr_add ip ∷ route_add 0 ip ∷ route_add (2 ^ 31) ip ∷ []

abbrev pub server_commands : List Command
server_commands = link_up ∷ addr_add server_address ∷ forward_on ∷ masquerade ∷ []

-- The command that takes another one back.
abbrev undo : Command → Command
undo link_up = link_down
undo link_down = link_up
undo (addr_add a) = addr_del a
undo (addr_del a) = addr_add a
undo (route_add d a) = route_del d a
undo (route_del d a) = route_add d a
undo forward_on = forward_on
undo masquerade = masquerade

module _ (succeeds : List Command → Command → Bool) where
  -- `system_`
  unfoldable pub system_ : Command → M Host (Unit {0})
  system_ c h =
      let after : Host = record h { ran = h.ran ++ c ∷ [] } in
      if succeeds h.ran c then (ok tt, after) else (abort "command failed: ", after)

  unfoldable pub setup_tun : ℕ → M Host (Unit {0})
  setup_tun ip = do
    system_ link_up
    system_ (addr_add ip)
    system_ (route_add 0 ip)
    system_ (route_add (2 ^ 31) ip)

  abbrev restore_with : Option ℕ → M Host (Unit {0})
  restore_with none h = (abort "failed to open tun_ip.raw", h)
  restore_with (some ip) h =
      (do
        system_ link_down
        system_ (addr_del ip)
        system_ (route_del 0 ip)
        system_ (route_del (2 ^ 31) ip))
        h

  -- `restore_network`; `tun_ip.raw` cannot be opened if it is not there.
  unfoldable pub restore_network : M Host (Unit {0})
  restore_network h = restore_with h.tun_ip h

  -- `SessionsControl::setupTun`
  unfoldable pub setup_server_tun : M Host (Unit {0})
  setup_server_tun = do
    system_ link_up
    system_ (addr_add server_address)
    system_ forward_on
    system_ masquerade

  -- What is left after the commands `cs` were to run: all of them ran, or the program stopped at
  -- the first one that failed.
  abbrev pub Ran : List Command → Host → Outcome (Unit {0}) × Host → Type 0
  Ran cs h (ok _, k) = (k.ran ≡ h.ran ++ cs) × (k.tun_ip ≡ h.tun_ip)
  Ran cs h (throw e, k) = ⊥
  Ran cs h (abort m, k) =
      (done : List Command) × (c : Command) × (rest : List Command) × (cs ≡ done ++ c ∷ rest)
      × (k.ran ≡ h.ran ++ (done ++ c ∷ []))
      × (succeeds (h.ran ++ done) c ≡ false)
      × (k.tun_ip ≡ h.tun_ip)
  Ran cs h (unfinished, k) = ⊥

  system-Ran : (c : Command) (h : Host) → Ran (c ∷ []) h (system_ c h)
  unfolding system_
  system-Ran c h = elim (Bool-cases (succeeds h.ran c)) [
    | inl fine ↦ rw fine (refl, refl)
    | inr fails ↦ rw fails ([], c, [], refl, refl, rw (append-nil h.ran) fails, refl)
  ]

  continue-Ran :
      (c : Command) (cs : List Command) (f : M Host (Unit {0})) (h : Host)
      (x : Outcome (Unit {0}) × Host)
      → Ran (c ∷ []) h x
      → ((k : Host) → Ran cs k (f k))
      → Ran (c ∷ cs) h (continue (λ u. f) x)
  continue-Ran c cs f h (ok u, k) (ran, same) next = later (f k) (next k)
    where
      later : (y : Outcome (Unit {0}) × Host) → Ran cs k y → Ran (c ∷ cs) h y
      later (ok v, j) (more, kept) = (
        more ∙ ap (λ (z : List Command). z ++ cs) ran ∙ append_assoc h.ran (c ∷ []) cs,
        kept ∙ same,
      )
      later (throw e, j) r = r
      later (abort m, j) (done, d, rest, e, more, failed, kept) = (
        c ∷ done,
        d,
        rest,
        ap (◌∷◌ c) e,
        more
            ∙ ap (λ (z : List Command). z ++ (done ++ d ∷ [])) ran
            ∙ append_assoc h.ran (c ∷ []) (done ++ d ∷ []),
        ap (λ (z : List Command). succeeds z d)
              (sym (append_assoc h.ran (c ∷ []) done)
                ∙ ap (λ (z : List Command). z ++ done) (sym ran))
            ∙ failed,
        kept ∙ same,
      )
      later (unfinished, j) r = r
  continue-Ran c cs f h (throw e, k) r next = r
  continue-Ran c cs f h (abort m, k) (done, d, rest, e, more, failed, same) next = (
    done,
    d,
    rest ++ cs,
    ap (λ (z : List Command). z ++ cs) e ∙ append_assoc done (d ∷ rest) cs,
    more,
    failed,
    same,
  )
  continue-Ran c cs f h (unfinished, k) r next = r

  four-Ran :
      (c1 c2 c3 c4 : Command) (h : Host)
      → Ran (c1 ∷ c2 ∷ c3 ∷ c4 ∷ []) h ((do system_ c1; system_ c2; system_ c3; system_ c4) h)
  four-Ran c1 c2 c3 c4 h = continue-Ran c1 _ _ h _ (system-Ran c1 h) λ k.
      continue-Ran c2 _ _ k _ (system-Ran c2 k)
        λ j. continue-Ran c3 _ _ j _ (system-Ran c3 j) λ i. system-Ran c4 i

  pub setup_server_tun-Ran : (h : Host) → Ran server_commands h (setup_server_tun h)
  unfolding setup_server_tun
  setup_server_tun-Ran h = four-Ran link_up (addr_add server_address) forward_on masquerade h

  pub setup_tun-Ran : (ip : ℕ) (h : Host) → Ran (client_commands ip) h (setup_tun ip h)
  unfolding setup_tun
  setup_tun-Ran ip h = four-Ran link_up (addr_add ip) (route_add 0 ip) (route_add (2 ^ 31) ip) h

  -- If `tun_ip.raw` holds an address, `restore_network` runs, in the same order, the commands that take
  -- back those that `setupTun` of the client runs for this address. Either of the two runs all of its
  -- commands, or stops in `cuabort` at the first that fails. Neither changes the file.
  restore_network-setup_tun :
      (ip : ℕ) (h k : Host)
      → k.tun_ip ≡ some ip
      → Ran (client_commands ip) h (setup_tun ip h)
        × Ran (map undo (client_commands ip)) k (restore_network k)
  unfolding restore_network
  restore_network-setup_tun ip h k e = (
    setup_tun-Ran ip h,
    subst (λ o. Ran (map undo (client_commands ip)) k (restore_with o k)) (sym e) restores,
  )
    where
      restores : Ran (map undo (client_commands ip)) k (restore_with (some ip) k)
      restores = four-Ran link_down (addr_del ip) (route_del 0 ip) (route_del (2 ^ 31) ip) k
