-- ===== src/Lifecycle/Trace.antt =====
-- What a session does to the pool and to the queue, from its start to its end.
use vpverk.Base.{
  ℕ, ◌≡◌, refl, ap, Bool, true, false, Option, none, some, List, [], ◌∷◌, ◌++◌, if◌then◌else◌, inl,
  inr, ◌⊎◌,
}
use vpverk.Effect.{Outcome, ok, throw, abort, unfinished, M, continue, ◌>>◌}
use vpverk.Net.{Socket}
use vpverk.Aes.{Cipher, AesSession}
use vpverk.Session.{Link, exchange_aes_key, authenticate_user, send_ip}
use vpverk.Traffic.{perform_data_exchange}
use vpverk.Settings.{SettingsSnapshot}
use vpverk.Rsa.{RsaKey}
use vpverk.Connection.{Connection}
use vpverk.Connection
use vpverk.Address.{AddressPool, allot, rounds}
use vpverk.Router.{Peer}
use vpverk.Lifecycle.{
  Shared, Deed, takes, registers, unregisters, releases, Life, on_life, on_link, on_relay, given,
  take_address, pushed, register, serve_user, assert_active, private_key, session, try_push,
  with_aes, queue_full, access_denied,
}

-- The deeds of a session that is over: none; or an address taken, unregistered and released, in this
-- order, and registered or not in between.
abbrev pub Whole : List Deed → Type 0
Whole ds =
    (ds ≡ [])
    ⊎ ((a : ℕ) × ((ds ≡ takes a ∷ unregisters a ∷ releases a ∷ [])
          ⊎ (ds ≡ takes a ∷ registers a ∷ unregisters a ∷ releases a ∷ [])))

-- The deeds of one that is not over.
abbrev pub Begun : List Deed → Type 0
Begun ds = (rest : List Deed) × Whole (ds ++ rest)

module _ (C : Cipher) (S : Socket) where
  abbrev Fixed : Option ℕ → List Deed → Life C S → Type 0
  Fixed o ds l = (l.assigned ≡ o) × (l.deeds ≡ ds)

  -- A call returns with `P`, or leaves `Q`.
  abbrev pub Leads :
      {A : Type 0} → (A → Life C S → Type 0) → (Life C S → Type 0) → Outcome A × Life C S → Type 0
  Leads P Q (ok a, l) = P a l
  Leads P Q (throw e, l) = Q l
  Leads P Q (abort m, l) = Q l
  Leads P Q (unfinished, l) = Q l

  pub continue-Leads :
      {A B : Type 0} (P : A → Life C S → Type 0) (R : B → Life C S → Type 0) (Q : Life C S → Type 0)
      (f : A → M (Life C S) B) (x : Outcome A × Life C S)
      → Leads P Q x
      → ((a : A) (l : Life C S) → P a l → Leads R Q (f a l))
      → Leads R Q (continue f x)
  continue-Leads P R Q f (ok a, l) h k = k a l h
  continue-Leads P R Q f (throw e, l) h k = h
  continue-Leads P R Q f (abort m, l) h k = h
  continue-Leads P R Q f (unfinished, l) h k = h

  -- What changes neither the address nor the deeds.
  fixed :
      {A : Type 0} (Q : Life C S → Type 0) (o : Option ℕ) (ds : List Deed) (r : Outcome A)
      (l : Life C S)
      → Fixed o ds l
      → (Fixed o ds l → Q l)
      → Leads (λ a m. Fixed o ds m) Q (r, l)
  fixed Q o ds (ok a) l h k = h
  fixed Q o ds (throw e) l h k = k h
  fixed Q o ds (abort m) l h k = k h
  fixed Q o ds unfinished l h k = k h

  on_life-Leads :
      {A : Type 0} (Q : Life C S → Type 0) (o : Option ℕ) (ds : List Deed) (f : M (Connection S) A)
      (l : Life C S)
      → Fixed o ds l
      → ((m : Life C S) → Fixed o ds m → Q m)
      → Leads (λ a m. Fixed o ds m) Q (on_life C S f l)
  on_life-Leads Q o ds f l h k =
      fixed Q o ds (f l.con).0 (record l { con = (f l.con).1 }) h
        (k (record l { con = (f l.con).1 }))

  on_link-Leads :
      {A : Type 0} (Q : Life C S → Type 0) (o : Option ℕ) (ds : List Deed) (a : AesSession C)
      (f : M (Link C S) A) (l : Life C S)
      → Fixed o ds l
      → ((m : Life C S) → Fixed o ds m → Q m)
      → Leads (λ x m. Fixed o ds m) Q (on_link C S a f l)
  on_link-Leads Q o ds a f l h k =
      let x = f (record { con = l.con; aes = a }) in
      let m : Life C S = record l { con = x.1.con } in
      fixed Q o ds (with_aes C S x.0 x.1.aes) m h (k m)

  -- Wherever the try block stops: nothing was taken, or one address, registered or not.
  abbrev pub Within : Life C S → Type 0
  Within l =
      Fixed none [] l
      ⊎ ((a : ℕ) × (Fixed (some a) (takes a ∷ []) l
            ⊎ Fixed (some a) (takes a ∷ registers a ∷ []) l))

  abbrev pub Left : Bool → Life C S → Type 0
  Left true l = Fixed none [] l
  Left false l = (a : ℕ) × Fixed (some a) (takes a ∷ registers a ∷ []) l

  module _ (meanwhile : Shared → Shared) (check : ℕ → Outcome (Unit {0}))
      (yield : Connection S → Connection S) (spins : ℕ) where
    abbrev Taken : ℕ → Life C S → Type 0
    Taken a l = Fixed (some a) (takes a ∷ []) l

    take_address-Leads :
        (l : Life C S) → Fixed none [] l → Leads Taken Within (take_address C S meanwhile check l)
    unfolding take_address given
    take_address-Leads l h = go (allot check rounds (meanwhile l.shared).pool)
      where
        now : Life C S
        now = record l { shared = meanwhile l.shared }

        go :
            (x : Option (Outcome ℕ × AddressPool))
            → Leads Taken Within
                (elim x [ none ↦ (unfinished, now) | some r ↦ given C S meanwhile check r now ])
        go none = inl h
        go (some (ok a, p)) = (refl, ap (λ (ds : List Deed). ds ++ takes a ∷ []) h.1)
        go (some (throw e, p)) = inl h
        go (some (abort m, p)) = inl h
        go (some (unfinished, p)) = inl h

    register-Leads :
        (a : ℕ) (v : Peer) (l : Life C S)
        → Taken a l
        → Leads
            (λ u m. Fixed (some a) (takes a ∷ registers a ∷ []) m)
            Within
            (register C S meanwhile check yield spins a v l)
    unfolding register pushed
    register-Leads a v l h =
        go (try_push (record { add_or_remove = true; addr = a; peer = v }) (meanwhile l.shared))
      where
        go :
            (x : Bool × Shared)
            → Leads
                (λ u m. Fixed (some a) (takes a ∷ registers a ∷ []) m)
                Within
                (pushed C S meanwhile check yield spins a x l)
        go (true, s) = (h.0, ap (λ (ds : List Deed). ds ++ registers a ∷ []) h.1)
        go (false, s) =
            continue-Leads (λ u m. Taken a m) (λ u m. Fixed (some a) (takes a ∷ registers a ∷ []) m)
              Within _ _
              (on_life-Leads Within (some a) (takes a ∷ [])
                (Connection.close S yield spins queue_full) (record l { shared = s }) h
                (λ m k. inr (a, inl k)))
              (λ u m k. inr (a, inl k))

    serve_user-Leads :
        (v : Peer) (fuel : ℕ) (aes : AesSession C) (l : Life C S)
        → Fixed none [] l
        → Leads Left Within (serve_user C S meanwhile check yield spins v fuel aes l)
    unfolding serve_user on_relay
    serve_user-Leads v fuel aes l h =
        continue-Leads Taken Left Within _ _ (take_address-Leads l h) λ a m t.
          continue-Leads (λ r k. Taken a k) Left Within _ _
            (on_link-Leads Within (some a) (takes a ∷ []) aes (send_ip C S yield spins a) m t
              (λ k q. inr (a, inl q)))
            λ r k q.
              continue-Leads (λ u j. Fixed (some a) (takes a ∷ registers a ∷ []) j) Left Within _ _
                (register-Leads a v k q)
                λ u j z.
                  let x =
                    perform_data_exchange C S yield spins fuel
                      (record { link = record { con = j.con; aes = r.1 }; written = j.written }) in
                  let e : Life C S = record j { con = x.1.link.con; written = x.1.written } in
                  continue-Leads (λ b i. Fixed (some a) (takes a ∷ registers a ∷ []) i) Left Within
                    _ _
                    (fixed Within (some a) (takes a ∷ registers a ∷ []) x.0 e z
                      (λ y. inr (a, inr y)))
                    λ b i y. (a, y)

    pub session-Leads :
        (settings : SettingsSnapshot) (allocated : Bool) (v : Peer) (fuel : ℕ) (l : Life C S)
        → Fixed none [] l
        → Leads Left Within (session C S meanwhile check yield spins settings allocated v fuel l)
    unfolding session assert_active private_key
    session-Leads settings allocated v fuel l h =
        continue-Leads (λ o m. Fixed none [] m) Left Within _ _
          (on_life-Leads Within none [] (Connection.is_active S) l h (λ m q. inl q))
          λ o m q.
            continue-Leads (λ u k. Fixed none [] k) Left Within _ _ (asserted o m q)
              λ u k p.
                continue-Leads (λ key j. Fixed none [] j) Left Within _ _
                  (keyed settings.private_key k p)
                  λ key j n.
                    continue-Leads (λ aes i. Fixed none [] i) Left Within _ _
                      (on_life-Leads Within none [] (exchange_aes_key C S yield spins key allocated)
                        j n (λ i y. inl y))
                      λ aes i y.
                        continue-Leads (λ r e. Fixed none [] e) Left Within _ _
                          (on_link-Leads Within none [] aes
                            (authenticate_user C S yield spins settings.allowed_logins) i y
                            (λ e x. inl x))
                          λ r e x. allowed_or_not r.0 r.1 e x
      where
        asserted :
            (o : Option Bool) (m : Life C S)
            → Fixed none [] m
            → Leads
                (λ u k. Fixed none [] k)
                Within
                (assert_active C S meanwhile check yield spins o m)
        asserted (some b) m q = q
        asserted none m q = inl q

        keyed :
            (o : Option RsaKey) (m : Life C S)
            → Fixed none [] m
            → Leads
                (λ u k. Fixed none [] k)
                Within
                (private_key C S meanwhile check yield spins o m)
        keyed (some b) m q = q
        keyed none m q = inl q

        allowed_or_not :
            (b : Bool) (aes : AesSession C) (e : Life C S)
            → Fixed none [] e
            → Leads Left Within (
                (if b then serve_user C S meanwhile check yield spins v fuel aes else (do
                  on_life C S (Connection.close S yield spins access_denied)
                  (λ s. (ok true, s))))
                  e)
        allowed_or_not true aes e x = serve_user-Leads v fuel aes e x
        allowed_or_not false aes e x =
            continue-Leads (λ u k. Fixed none [] k) Left Within _ _
              (on_life-Leads Within none [] (Connection.close S yield spins access_denied) e x
                (λ m q. inl q))
              (λ u k q. q)
