-- ===== src/Lifecycle/Keeps.antt =====
-- A session and the addresses of the others.
use vpverk.Base.{
  ℕ, zero, suc, ◌≡◌, ◌≢◌, refl, sym, ap, ◌∙◌, Bool, true, false, Option, none, some, if◌then◌else◌,
  inl, inr, contains, Bool-cases, ltb, length,
}
use vpverk.Effect.{Outcome, ok, throw, abort, unfinished, M, continue, ◌>>◌}
use vpverk.Net.{Socket}
use vpverk.Aes.{Cipher, AesSession}
use vpverk.Session.{Link, exchange_aes_key, authenticate_user, send_ip}
use vpverk.Traffic.{perform_data_exchange}
use vpverk.Settings.{SettingsSnapshot}
use vpverk.Rsa.{RsaKey}
use vpverk.Connection.{Connection}
use vpverk.Connection
use vpverk.Address.{AddressPool, allot, rounds}
use vpverk.Address.Gives.{GivesIf, allot-Gives, release-keeps}
use vpverk.Router.{Peer}
use vpverk.Lifecycle.Trace.{Leads, continue-Leads}
use vpverk.Lifecycle.{
  Shared, Life, on_life, on_link, on_relay, given, take_address, pushed, register, serve_user,
  assert_active, private_key, session, with_aes, push_removal, give_back, leave, afterwards,
  start_connection, try_push, queue_full, access_denied, queue_capacity,
}

some_same : (a c : ℕ) → Path (Option ℕ) (some a) (some c) → a ≡ c
some_same a c e = cc

not_some : (a : ℕ) → Path (Option ℕ) none (some a) → ⊥
not_some a e = cc

module _ (C : Cipher) (S : Socket) (b : ℕ) where
  -- `b` is taken, and it is not the address of this session.
  abbrev Foreign : Life C S → Type 0
  Foreign l = (contains b l.shared.pool.taken ≡ true) × ((a : ℕ) → l.assigned ≡ some a → b ≢ a)

  -- However the call ends
  abbrev Stays : {A : Type 0} → Outcome A × Life C S → Type 0
  Stays x = Leads C S (λ a m. Foreign m) Foreign x

  abbrev Kept : {A : Type 0} → M (Life C S) A → Type 0
  Kept f = (l : Life C S) → Foreign l → Stays (f l)

  continue-Stays :
      {A B : Type 0} (f : A → M (Life C S) B) (x : Outcome A × Life C S)
      → Stays x
      → ((a : A) → Kept (f a))
      → Stays (continue f x)
  continue-Stays f x h k = continue-Leads C S (λ a m. Foreign m) (λ a m. Foreign m) Foreign f x h k

  any_end : {A : Type 0} (r : Outcome A) (m : Life C S) → Foreign m → Stays (r, m)
  any_end (ok a) m h = h
  any_end (throw e) m h = h
  any_end (abort t) m h = h
  any_end unfinished m h = h

  on_life-Stays : {A : Type 0} (f : M (Connection S) A) → Kept (on_life C S f)
  on_life-Stays f l h = any_end (f l.con).0 (record l { con = (f l.con).1 }) h

  on_link-Stays : {A : Type 0} (aes : AesSession C) (f : M (Link C S) A) → Kept (on_link C S aes f)
  on_link-Stays aes f l h =
      let x = f (record { con = l.con; aes = aes }) in
      any_end (with_aes C S x.0 x.1.aes) (record l { con = x.1.con }) h

  module _ (meanwhile : Shared → Shared)
      (others_keep : (s : Shared)
        → contains b s.pool.taken ≡ true
        → contains b (meanwhile s).pool.taken ≡ true)
      (check : ℕ → Outcome (Unit {0})) where
    take_address-Kept : Kept (take_address C S meanwhile check)
    unfolding take_address given
    take_address-Kept l h =
        go (allot check rounds (meanwhile l.shared).pool)
          (allot-Gives check b rounds (meanwhile l.shared).pool (others_keep l.shared h.0))
      where
        now : Life C S
        now = record l { shared = meanwhile l.shared }

        go :
            (x : Option (Outcome ℕ × AddressPool))
            → GivesIf b x
            → Stays {A = ℕ}
                (elim x [ none ↦ (unfinished, now) | some r ↦ given C S meanwhile check r now ])
        go none g = (others_keep l.shared h.0, h.1)
        go (some (ok a, p)) g = (g.stays, λ c e. g.other c (ap ok (some_same a c e)))
        go (some (throw e, p)) g = (g.stays, h.1)
        go (some (abort m, p)) g = (g.stays, h.1)
        go (some (unfinished, p)) g = (g.stays, h.1)

    module _ (yield : Connection S → Connection S) (spins : ℕ) where
      register-Kept : (a : ℕ) (v : Peer) → Kept (register C S meanwhile check yield spins a v)
      unfolding register pushed try_push
      register-Kept a v l h =
          elim (Bool-cases (ltb (length (meanwhile l.shared).queue) queue_capacity)) [
            | inl room ↦ rw room (others_keep l.shared h.0, h.1)
            | inr full ↦ rw full (
                continue-Stays _ _
                  (on_life-Stays (Connection.close S yield spins queue_full)
                    (record l { shared = meanwhile l.shared }) (others_keep l.shared h.0, h.1))
                  (λ u m k. k))
          ]

      serve_user-Kept :
          (v : Peer) (fuel : ℕ) (aes : AesSession C)
          → Kept (serve_user C S meanwhile check yield spins v fuel aes)
      unfolding serve_user on_relay
      serve_user-Kept v fuel aes l h = continue-Stays _ _ (take_address-Kept l h) λ a m k.
          continue-Stays _ _ (on_link-Stays aes (send_ip C S yield spins a) m k) λ r j q.
            continue-Stays _ _ (register-Kept a v j q) λ u i y.
              let x =
                perform_data_exchange C S yield spins fuel
                  (record { link = record { con = i.con; aes = r.1 }; written = i.written }) in
              let e : Life C S = record i { con = x.1.link.con; written = x.1.written } in
              continue-Stays _ _ (any_end x.0 e y) λ z n w. w

      session-Kept :
          (settings : SettingsSnapshot) (allocated : Bool) (v : Peer) (fuel : ℕ)
          → Kept (session C S meanwhile check yield spins settings allocated v fuel)
      unfolding session assert_active private_key
      session-Kept settings allocated v fuel l h =
          continue-Stays _ _ (on_life-Stays (Connection.is_active S) l h) λ o m k.
            continue-Stays _ _ (asserted o m k) λ u j q.
              continue-Stays _ _ (keyed settings.private_key j q) λ key i y.
                continue-Stays _ _
                  (on_life-Stays (exchange_aes_key C S yield spins key allocated) i y)
                  λ aes n z.
                    continue-Stays _ _
                      (on_link-Stays aes (authenticate_user C S yield spins settings.allowed_logins)
                        n z)
                      λ r e x. allowed r.0 r.1 e x
        where
          asserted : (o : Option Bool) → Kept (assert_active C S meanwhile check yield spins o)
          asserted (some x) l h = h
          asserted none l h = h

          keyed : (o : Option RsaKey) → Kept (private_key C S meanwhile check yield spins o)
          keyed (some x) l h = h
          keyed none l h = h

          allowed :
              (x : Bool) (aes : AesSession C)
              → Kept (
                  if x then serve_user C S meanwhile check yield spins v fuel aes else (do
                    on_life C S (Connection.close S yield spins access_denied)
                    (λ s. (ok true, s))))
          allowed true aes e h = serve_user-Kept v fuel aes e h
          allowed false aes e h =
              continue-Stays _ _ (on_life-Stays (Connection.close S yield spins access_denied) e h)
                λ u m k. k

      push_removal-Kept :
          (fuel a : ℕ) (v : Peer) → Kept (push_removal C S meanwhile check yield spins fuel a v)
      unfolding push_removal try_push
      push_removal-Kept zero a v l h = h
      push_removal-Kept (suc fuel) a v l h =
          elim (Bool-cases (ltb (length (meanwhile l.shared).queue) queue_capacity)) [
            | inl room ↦ rw room (others_keep l.shared h.0, h.1)
            | inr full ↦ rw full (
                push_removal-Kept fuel a v (record l { shared = meanwhile l.shared })
                  (others_keep l.shared h.0, h.1))
          ]

      leave-Kept : (v : Peer) → Kept (leave C S meanwhile check yield spins v)
      unfolding leave give_back
      leave-Kept v l h = go l.assigned refl
        where
          go :
              (o : Option ℕ)
              → l.assigned ≡ o
              → Stays {A = Unit {0}} (elim o [
                | none ↦ (ok tt, l)
                | some a ↦
                    continue
                      (λ u. give_back C S meanwhile check yield spins a)
                      (push_removal C S meanwhile check yield spins spins a v l)
              ])
          go none e = h
          go (some a) e =
              continue-Stays (λ u. give_back C S meanwhile check yield spins a) _
                (push_removal-Kept spins a v l h)
                λ u m k. (
                  release-keeps a b (meanwhile m.shared).pool (h.1 a e) (others_keep m.shared k.0),
                  k.1,
                )

      -- If an address is taken before a session that has none starts, and what others do meanwhile
      -- leaves it taken, then it is taken wherever the session ends: a session does not release the
      -- address of another one.
      pub start_connection-keeps :
          (settings : SettingsSnapshot) (allocated : Bool) (v : Peer) (fuel : ℕ) (l : Life C S)
          → l.assigned ≡ none
          → contains b l.shared.pool.taken ≡ true
          → contains b
              (start_connection C S meanwhile check yield spins settings allocated v fuel
                l).1.shared.pool.taken
            ≡ true
      unfolding start_connection afterwards
      start_connection-keeps settings allocated v fuel l free there =
          go (session C S meanwhile check yield spins settings allocated v fuel l) (
            session-Kept settings allocated v fuel l
              (there, λ a e. absurd (not_some a (sym free ∙ e))))
        where
          ends :
              (x : Outcome (Unit {0}) × Life C S)
              → Stays x
              → contains b x.1.shared.pool.taken ≡ true
          ends (ok u, m) h = h.0
          ends (throw e, m) h = h.0
          ends (abort t, m) h = h.0
          ends (unfinished, m) h = h.0

          go :
              (x : Outcome Bool × Life C S)
              → Stays x
              → contains b (afterwards C S meanwhile check yield spins v x).1.shared.pool.taken
                ≡ true
          go (ok true, m) h = h.0
          go (ok false, m) h = ends (leave C S meanwhile check yield spins v m) (leave-Kept v m h)
          go (throw e, m) h = ends (leave C S meanwhile check yield spins v m) (leave-Kept v m h)
          go (abort t, m) h = h.0
          go (unfinished, m) h = h.0
