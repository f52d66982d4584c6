-- ===== src/Lifecycle/Whole.antt =====
-- A session that is over has given back what it took.
use vpverk.Base.{
  ℕ, zero, suc, ◌≡◌, ap, Bool, true, false, none, some, List, [], ◌∷◌, ◌++◌, if◌then◌else◌, inl,
  inr, ◌⊎◌,
}
use vpverk.Effect.{Outcome, ok, throw, abort, unfinished, continue}
use vpverk.Net.{Socket}
use vpverk.Aes.{Cipher}
use vpverk.Settings.{SettingsSnapshot}
use vpverk.Connection.{Connection}
use vpverk.Router.{Peer}
use vpverk.Lifecycle.{
  Shared, Deed, takes, registers, unregisters, releases, Life, session, push_removal, give_back,
  leave, afterwards, start_connection, try_push,
}
use vpverk.Lifecycle.Trace.{Whole, Begun, Leads, Within, Left, session-Leads}

module _ (C : Cipher) (S : Socket) where
  -- The session ended as it should: it returned and is over, or it is inside `cuabort` or in a loop
  -- and may still do the rest. No exception leaves it.
  abbrev pub Ends : Outcome (Unit {0}) × Life C S → Type 0
  Ends (ok _, l) = Whole l.deeds
  Ends (throw e, l) = ⊥
  Ends (abort m, l) = Begun l.deeds
  Ends (unfinished, l) = Begun l.deeds

  -- It has an address, registered or not.
  abbrev Owes : ℕ → List Deed → Type 0
  Owes a ds = (ds ≡ takes a ∷ []) ⊎ (ds ≡ takes a ∷ registers a ∷ [])

  Owes-Begun : (a : ℕ) (ds : List Deed) → Owes a ds → Begun ds
  Owes-Begun a ds (inl e) = (
    unregisters a ∷ releases a ∷ [],
    inr (a, inl (ap (λ (x : List Deed). x ++ unregisters a ∷ releases a ∷ []) e)),
  )
  Owes-Begun a ds (inr e) = (
    unregisters a ∷ releases a ∷ [],
    inr (a, inr (ap (λ (x : List Deed). x ++ unregisters a ∷ releases a ∷ []) e)),
  )

  paid :
      (a : ℕ) (ds : List Deed) → Owes a ds → Whole ((ds ++ unregisters a ∷ []) ++ releases a ∷ [])
  paid a ds (inl e) =
      inr (a, inl (ap (λ (x : List Deed). (x ++ unregisters a ∷ []) ++ releases a ∷ []) e))
  paid a ds (inr e) =
      inr (a, inr (ap (λ (x : List Deed). (x ++ unregisters a ∷ []) ++ releases a ∷ []) e))

  Within-Begun : (l : Life C S) → Within C S l → Begun l.deeds
  Within-Begun l (inl h) = ([], inl (ap (λ (x : List Deed). x ++ []) h.1))
  Within-Begun l (inr (a, inl h)) = Owes-Begun a l.deeds (inl h.1)
  Within-Begun l (inr (a, inr h)) = Owes-Begun a l.deeds (inr h.1)

  module _ (meanwhile : Shared → Shared) (check : ℕ → Outcome (Unit {0}))
      (yield : Connection S → Connection S) (spins : ℕ) where
    removed-Ends :
        (a : ℕ) (v : Peer) (fuel : ℕ) (l : Life C S)
        → Owes a l.deeds
        → Ends (
            continue
              (λ u. give_back C S meanwhile check yield spins a)
              (push_removal C S meanwhile check yield spins fuel a v l))
    unfolding push_removal give_back
    removed-Ends a v zero l h = Owes-Begun a l.deeds h
    removed-Ends a v (suc fuel) l h =
        go
          (try_push (record { add_or_remove = false; addr = a; peer = record v { aes = none } })
            (meanwhile l.shared))
          (λ s. removed-Ends a v fuel (record l { shared = s }) h)
      where
        go :
            (x : Bool × Shared)
            → ((s : Shared)
                → Ends (
                    continue
                      (λ u. give_back C S meanwhile check yield spins a)
                      (push_removal C S meanwhile check yield spins fuel a v
                        (record l { shared = s }))))
            → Ends (
                continue
                  (λ u. give_back C S meanwhile check yield spins a)
                  (if x.0
                    then (ok tt, record l { shared = x.1; deeds = l.deeds ++ unregisters a ∷ [] })
                    else push_removal C S meanwhile check yield spins fuel a v
                        (record l { shared = x.1 })))
        go (true, s) again = paid a l.deeds h
        go (false, s) again = again s

    leave-Ends :
        (v : Peer) (a : ℕ) (l : Life C S)
        → l.assigned ≡ some a
        → Owes a l.deeds
        → Ends (leave C S meanwhile check yield spins v l)
    unfolding leave
    leave-Ends v a l e h = rw (leave, e) (removed-Ends a v spins l h)

    leave_nothing-Ends :
        (v : Peer) (l : Life C S)
        → l.assigned ≡ none
        → l.deeds ≡ []
        → Ends (leave C S meanwhile check yield spins v l)
    unfolding leave
    leave_nothing-Ends v l e h = rw (leave, e) (inl h)

    -- A session starts with no address and no deeds. If it returns, it has done nothing to the pool and
    -- the queue, or it has taken one address, then perhaps registered its route, then unregistered it,
    -- then released the address, and no more. No exception leaves it. If it stops in `cuabort`, or
    -- is still in a loop, it has done the first part of such a sequence.
    pub start_connection-Ends :
        (settings : SettingsSnapshot) (allocated : Bool) (v : Peer) (fuel : ℕ) (l : Life C S)
        → l.assigned ≡ none
        → l.deeds ≡ []
        → Ends (start_connection C S meanwhile check yield spins settings allocated v fuel l)
    unfolding start_connection afterwards
    start_connection-Ends settings allocated v fuel l free fresh =
        go (session C S meanwhile check yield spins settings allocated v fuel l)
          (session-Leads C S meanwhile check yield spins settings allocated v fuel l (free, fresh))
      where
        excepted : (m : Life C S) → Within C S m → Ends (leave C S meanwhile check yield spins v m)
        excepted m (inl h) = leave_nothing-Ends v m h.0 h.1
        excepted m (inr (a, inl h)) = leave-Ends v a m h.0 (inl h.1)
        excepted m (inr (a, inr h)) = leave-Ends v a m h.0 (inr h.1)

        go :
            (x : Outcome Bool × Life C S)
            → Leads C S (Left C S) (Within C S) x
            → Ends (afterwards C S meanwhile check yield spins v x)
        go (ok true, m) h = inl h.1
        go (ok false, m) (a, h) = leave-Ends v a m h.0 (inr h.1)
        go (throw e, m) h = excepted m h
        go (abort t, m) h = Within-Begun m h
        go (unfinished, m) h = Within-Begun m h
