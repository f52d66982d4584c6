-- ===== src/Accept/Admits.antt =====
-- Which connections get a session.
use vpverk.Base.{
  ℕ, ◌≤◌, ◌<◌, ◌≡◌, refl, sym, ap, ◌∙◌, Bool, true, false, Option, none, some, List, [], ◌∷◌, ◌++◌,
  length, ltb, arith, Bool-cases, inl, inr,
}
use mathlib.Core.List.{append_assoc, append-nil}
use vpverk.Net.{Socket}
use vpverk.Sweep.{Entry}
use vpverk.Accept.{
  Event, bound, not_bound, arrives, fails, Server, admit, accept_event, accept_connection,
  table_bound,
}

module _ (S : Socket) where
  -- The connections that arrive while there is an acceptor.
  abbrev admitted : Bool → List (Event S) → List (Entry S)
  admitted b [] = []
  admitted b (bound ∷ events) = admitted true events
  admitted b (not_bound e ∷ events) = admitted b events
  admitted b (fails e ∷ events) = admitted false events
  admitted true (arrives c ∷ events) = c ∷ admitted true events
  admitted false (arrives c ∷ events) = admitted false events

  abbrev has_acceptor : Option ℕ → Bool
  has_acceptor none = false
  has_acceptor (some p) = true

  module _ (port : ℕ) (meanwhile : List (Entry S) → List (Entry S)) where
    -- Each connection that arrives while there is an acceptor gets one session, in the order of arrival,
    -- also over any number of errors of the acceptor, and no other connection gets one.
    accept_connection-admitted :
        (events : List (Event S)) (s : Server S)
        → (accept_connection S port meanwhile events s).started
          ≡ s.started ++ admitted (has_acceptor s.acceptor) events
    unfolding accept_connection accept_event admit
    accept_connection-admitted [] s = sym (append-nil s.started)
    accept_connection-admitted (e ∷ events) s =
        go e s.acceptor refl (λ t. accept_connection-admitted events t)
      where
        go :
            (e : Event S) (o : Option ℕ)
            → s.acceptor ≡ o
            → ((t : Server S)
                → (accept_connection S port meanwhile events t).started
                  ≡ t.started ++ admitted (has_acceptor t.acceptor) events)
            → (accept_connection S port meanwhile events
                (accept_event S port meanwhile e o s)).started
              ≡ s.started ++ admitted (has_acceptor o) (e ∷ events)
        go bound none q later = later (record s { acceptor = some port })
        go (not_bound x) none q later = later (record s { acceptor = none })
        go (arrives c) none q later =
            later s ∙ ap (λ a. s.started ++ admitted (has_acceptor a) events) q
        go (fails x) none q later =
            later s ∙ ap (λ a. s.started ++ admitted (has_acceptor a) events) q
        go bound (some p) q later =
            later s ∙ ap (λ a. s.started ++ admitted (has_acceptor a) events) q
        go (not_bound x) (some p) q later =
            later s ∙ ap (λ a. s.started ++ admitted (has_acceptor a) events) q
        go (arrives c) (some p) q later =
            later (admit S port meanwhile c s)
            ∙ ap (λ a. (s.started ++ c ∷ []) ++ admitted (has_acceptor a) events) q
            ∙ append_assoc s.started (c ∷ []) (admitted true events)
        go (fails x) (some p) q later = later (record s { acceptor = none })

  -- More than `n` sweeps were started, if the table is too long.
  abbrev Watched : ℕ → Server S → Type 0
  Watched n s = (n ≤ s.sweeps) × (table_bound < length s.connections → n < s.sweeps)

  event-Watched :
      (port n : ℕ) (e : Event S) (o : Option ℕ) (s : Server S)
      → Watched n s
      → Watched n (accept_event S port (λ xs. xs) e o s)
  unfolding accept_event admit
  event-Watched port n bound none s w = w
  event-Watched port n (not_bound x) none s w = w
  event-Watched port n (arrives c) none s w = w
  event-Watched port n (fails x) none s w = w
  event-Watched port n bound (some p) s w = w
  event-Watched port n (not_bound x) (some p) s w = w
  event-Watched port n (arrives c) (some p) s w =
      elim (Bool-cases (ltb table_bound (length (s.connections ++ c ∷ [])))) [
        | inl over ↦ rw over (let low = w.0 in (omega (arith, low), λ h. omega (arith, low)))
        | inr under ↦ rw under (w.0, λ h. absurd (ground (arith, under, h)))
      ]
  event-Watched port n (fails x) (some p) s w = w

  run-Watched :
      (port n : ℕ) (events : List (Event S)) (s : Server S)
      → Watched n s
      → Watched n (accept_connection S port (λ xs. xs) events s)
  unfolding accept_connection
  run-Watched port n [] s w = w
  run-Watched port n (e ∷ events) s w =
      run-Watched port n events (accept_event S port (λ xs. xs) e s.acceptor s)
        (event-Watched port n e s.acceptor s w)

  -- A table of at most 8192 connections, which nobody else changes, grows beyond that only with a sweep
  -- started.
  accept_connection_sweeps :
      (port : ℕ) (events : List (Event S)) (s : Server S)
      → length s.connections ≤ table_bound
      → table_bound < length (accept_connection S port (λ xs. xs) events s).connections
      → s.sweeps < (accept_connection S port (λ xs. xs) events s).sweeps
  accept_connection_sweeps port events s small large =
      (run-Watched port s.sweeps events s (omega arith, λ h. omega (arith, small, h))).1 large
