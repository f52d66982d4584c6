-- ===== src/Router/Retry.antt =====
-- The do-while loop ends, and what its error branch deletes could not be carried out.
use vpverk.Base.{
  ℕ, zero, suc, ◌+◌, ◌^◌, ◌≤◌, ◌<◌, ◌≡◌, ◌≢◌, refl, sym, ap, subst, ◌∙◌, false, Option, some, List,
  [], ◌∷◌, ◌==◌, ==_iff, length, arith, inl, inr, ◌⊎◌,
}
use native.Mathlib.Decide.{ℕ_discrete}
use vpverk.Router.{Route, Router, pass, retry, settle, no_size}
use vpverk.Router.Counts.{held, adds, removes}
use vpverk.Router.Drain.{AllStuck, pass_all, pass_counted, pass-held, length-pass-le, pass_stuck}

-- `m'` and `dropped` are what the requests `kept` come to at `m`: the requests carried out balance
-- at each address, and those dropped can still not be carried out.
pub record Settles (m : Router) (kept : List Route) (m' : Router) (dropped : List Route)
    : Type 0 where
  pub balance :
      (a : ℕ)
      → held a m' + removes a kept + adds a dropped ≡ held a m + adds a kept + removes a dropped
  pub stuck : AllStuck m' dropped

Settles-stuck : {m : Router} {kept : List Route} → AllStuck m kept → Settles m kept m kept
Settles-stuck s = record { balance = λ a. omega arith; stuck = s }

Settles-empty :
    {m m' : Router} (kept : List Route)
    → pass_all (length kept) m kept ≡ (m', [])
    → Settles m kept m' []
unfolding adds removes
Settles-empty {m} kept e = record {
  balance = λ a. let h = pass-held a m kept in rw e at h;
  stuck = tt;
}

Settles-pass :
    {m m' m'' : Router} {kept kept' dropped : List Route}
    → pass_all (length kept) m kept ≡ (m', kept')
    → Settles m' kept' m'' dropped
    → Settles m kept m'' dropped
Settles-pass {m} {m'} {m''} {kept} {kept'} {dropped} e s = record { balance = sum; stuck = s.stuck }
  where
    first :
        (a : ℕ)
        → held a m' + removes a kept + adds a kept' ≡ held a m + adds a kept + removes a kept'
    first a = let h = pass-held a m kept in rw e at h

    sum :
        (a : ℕ)
        → held a m'' + removes a kept + adds a dropped ≡ held a m + adds a kept + removes a dropped
    sum a = omega (arith, first a, s.balance a)

-- The loop returns, with a result that settles the requests.
abbrev Ends : Option (Router × List Route) → Router → List Route → Type 0
Ends r m kept =
    (m' : Router) × (dropped : List Route) × (r ≡ some (m', dropped)) × Settles m kept m' dropped

retry_step :
    (fuel prev size : ℕ) (m : Router) (kept : List Route)
    → prev ≢ size
    → length kept < 2 ^ 32
    → ((m' : Router) (kept' : List Route)
        → pass_all (length kept) m kept ≡ (m', kept')
        → length kept' ≤ length kept
        → Ends (retry fuel size (length kept') m' kept') m' kept')
    → Ends (retry (suc fuel) prev size m kept) m kept
unfolding retry
retry_step fuel prev size m kept ne small next = go (pass_all (length kept) m kept) refl
  where
    differ : (prev == size) ≡ false
    differ = ground arith

    counted : pass (suc (length kept)) 0 (length kept) m kept ≡ some (pass_all (length kept) m kept)
    counted =
        pass_counted (suc (length kept)) (length kept) 0 (length kept) m kept (omega arith) small
          (omega arith) (omega arith)

    more : (n : ℕ) → (suc n == 0) ≡ false
    more n = ground arith

    go :
        (r : Router × List Route)
        → pass_all (length kept) m kept ≡ r
        → Ends (retry (suc fuel) prev size m kept) m kept
    go (m', []) e = (m', [], rw (retry, differ, counted, e), Settles-empty kept e)
    go (m', k ∷ ks) e =
        let short : length (k ∷ ks) ≤ length kept = let h = length-pass-le m kept in rw e at h in
        let (m'', dropped, q, s) = next m' (k ∷ ks) e short in
        (m'', dropped, rw (retry, differ, counted, e, more (length ks)) q, Settles-pass e s)

-- Once the sizes of two passes agree, nothing can be carried out, and the loop ends. Each pass
-- before that makes the queue shorter.
retry-Ends :
    (fuel prev : ℕ) (m : Router) (kept : List Route)
    → length kept < 2 ^ 32
    → ((prev ≡ length kept) × AllStuck m kept × (1 ≤ fuel))
      ⊎ ((prev ≢ length kept) × (length kept + 2 ≤ fuel))
    → Ends (retry fuel prev (length kept) m kept) m kept
unfolding retry
retry-Ends zero prev m kept small (inl (_, _, h)) = absurd (omega arith)
retry-Ends zero prev m kept small (inr (_, h)) = absurd (omega arith)
retry-Ends (suc fuel) prev m kept small (inl (e, s, h)) =
    (m, kept, rw ((==_iff prev (length kept)).1 e, retry), Settles-stuck s)
retry-Ends (suc fuel) prev m kept small (inr (ne, h)) =
    retry_step fuel prev (length kept) m kept ne small (after (retry-Ends fuel (length kept)))
  where
    rest :
        (m' : Router) (kept' : List Route)
        → pass_all (length kept) m kept ≡ (m', kept')
        → length kept ≡ length kept'
        → AllStuck m' kept'
    rest m' kept' e same =
        let (whole, stuck) =
          pass_stuck m kept (ap (λ (x : Router × List Route). length x.1) e ∙ sym same) in
        let both : (m, kept) ≡ (m', kept') = sym whole ∙ e in
        subst (λ (x : Router × List Route). AllStuck x.0 x.1) both stuck

    after :
        ((m' : Router) (kept' : List Route)
          → length kept' < 2 ^ 32
          → ((length kept ≡ length kept') × AllStuck m' kept' × (1 ≤ fuel))
            ⊎ ((length kept ≢ length kept') × (length kept' + 2 ≤ fuel))
          → Ends (retry fuel (length kept) (length kept') m' kept') m' kept')
        → (m' : Router) (kept' : List Route) → pass_all (length kept) m kept ≡ (m', kept')
        → length kept' ≤ length kept
        → Ends (retry fuel (length kept) (length kept') m' kept') m' kept'
    after again m' kept' e le = elim (ℕ_discrete (length kept) (length kept')) [
      | yes same ↦ again m' kept' (omega arith) (inl (same, rest m' kept' e same, omega arith))
      | no less ↦ again m' kept' (omega arith) (inr (less, omega arith))
    ]

-- `settle` returns, and settles the requests.
pub settle-Ends :
    (m : Router) (kept : List Route) → length kept < 2 ^ 32 → Ends (settle m kept) m kept
unfolding settle
settle-Ends m [] h = (m, [], refl, Settles-stuck tt)
settle-Ends m (r ∷ kept) h =
    let n = length (r ∷ kept) in
    retry_step (suc (suc n)) n no_size m (r ∷ kept) (λ e. omega (arith, e)) h
      λ m' kept' e le.
        retry-Ends (suc (suc n)) no_size m' kept' (omega arith)
          (inr (λ e. omega (arith, e), omega arith))
