-- ===== src/Threads/Owner.antt =====
-- Each of the three variables belongs to the thread that checked it first.
use vpverk.Base.{
  ℕ, ◌≡◌, refl, sym, ◌∙◌, ◌≢◌, ◌⊎◌, inl, inr, Bool, true, false, not, ◌&&◌, ◌||◌, ◌==◌, arith,
  if◌then◌else◌, Bool-cases,
}
use vpverk.Effect.{Outcome, ok, throw, abort, unfinished, continue}
use vpverk.Threads.{
  Slot, main_thread, settings_thread, stats_thread, ThreadIds, cussert, differs, all_differ,
  check_all_thread_ids_collision, set_id, check_thread,
}

-- No thread is in two variables.
pub record IsApart (s : ThreadIds) : Type 0 where
  pub main_settings : s main_thread ≡ s settings_thread → s main_thread ≡ 0
  pub main_stats : s main_thread ≡ s stats_thread → s main_thread ≡ 0
  pub settings_stats : s settings_thread ≡ s stats_thread → s settings_thread ≡ 0

-- What the check of all pairs comes to.
abbrev apart : ℕ → ℕ → ℕ → Bool
apart a b c = (b == 0 || not (a == b)) && ((c == 0 || not (a == c)) && (c == 0 || not (b == c)))

check_all_apart :
    (s : ThreadIds)
    → check_all_thread_ids_collision s ≡ (
        if apart (s main_thread) (s settings_thread) (s stats_thread)
        then (ok tt, s)
        else (abort "cussert", s))
unfolding check_all_thread_ids_collision all_differ differs
check_all_apart s = ground arith

-- The thread `t` may own the variable `i`: it does, or nobody does and it owns no other one.
abbrev pub MayOwn : ℕ → Slot → ThreadIds → Type 0
MayOwn t i s = (s i ≡ t) ⊎ ((s i ≡ 0) × ((j : Slot) → s j ≢ t))

-- The check passes, and `i` belongs to `t`, as nobody else's variable changed; or it stops the program,
-- and `t` may not own `i`.
abbrev pub Decides : ℕ → Slot → ThreadIds → Outcome (Unit {0}) × ThreadIds → Type 0
Decides t i s (ok _, r) =
    MayOwn t i s × (r i ≡ t) × IsApart r × ((j : Slot) → (r j ≡ s j) ⊎ ((j ≡ i) × (s i ≡ 0)))
Decides t i s (throw _, r) = ⊥
Decides t i s (abort _, r) = MayOwn t i s → ⊥
Decides t i s (unfinished, r) = ⊥

no_other :
    (t : ℕ) (i : Slot) (s : ThreadIds)
    → apart (set_id i t s main_thread) (set_id i t s settings_thread) (set_id i t s stats_thread)
      ≡ true
    → t ≢ 0
    → s i ≡ 0
    → (j : Slot) → s j ≢ t
unfolding set_id
no_other t main_thread s e h z main_thread = ground arith
no_other t main_thread s e h z settings_thread = ground arith
no_other t main_thread s e h z stats_thread = ground arith
no_other t settings_thread s e h z main_thread = ground arith
no_other t settings_thread s e h z settings_thread = ground arith
no_other t settings_thread s e h z stats_thread = ground arith
no_other t stats_thread s e h z main_thread = ground arith
no_other t stats_thread s e h z settings_thread = ground arith
no_other t stats_thread s e h z stats_thread = ground arith

apart-IsApart :
    (s : ThreadIds) → apart (s main_thread) (s settings_thread) (s stats_thread) ≡ true → IsApart s
apart-IsApart s e = record {
  main_settings = λ h. ground arith;
  main_stats = λ h. ground arith;
  settings_stats = λ h. ground arith;
}

IsApart-apart :
    (s : ThreadIds) → IsApart s → apart (s main_thread) (s settings_thread) (s stats_thread) ≡ true
IsApart-apart s p = ground (arith, p.main_settings, p.main_stats, p.settings_stats)

set_id_self : (t : ℕ) (i : Slot) (s : ThreadIds) → set_id i t s i ≡ t
unfolding set_id
set_id_self t main_thread s = refl
set_id_self t settings_thread s = refl
set_id_self t stats_thread s = refl

set_id_other : (t : ℕ) (i j : Slot) (s : ThreadIds) → (set_id i t s j ≡ s j) ⊎ (j ≡ i)
unfolding set_id
set_id_other t main_thread main_thread s = inr refl
set_id_other t main_thread settings_thread s = inl refl
set_id_other t main_thread stats_thread s = inl refl
set_id_other t settings_thread main_thread s = inl refl
set_id_other t settings_thread settings_thread s = inr refl
set_id_other t settings_thread stats_thread s = inl refl
set_id_other t stats_thread main_thread s = inl refl
set_id_other t stats_thread settings_thread s = inl refl
set_id_other t stats_thread stats_thread s = inr refl

apart-set_id :
    (t : ℕ) (i : Slot) (s : ThreadIds)
    → IsApart s
    → ((j : Slot) → s j ≢ t)
    → apart (set_id i t s main_thread) (set_id i t s settings_thread) (set_id i t s stats_thread)
      ≡ true
unfolding set_id
apart-set_id t main_thread s p h =
    ground (arith, p.settings_stats, h settings_thread, h stats_thread)
apart-set_id t settings_thread s p h = ground (arith, p.main_stats, h main_thread, h stats_thread)
apart-set_id t stats_thread s p h =
    ground (arith, p.main_settings, h main_thread, h settings_thread)

-- On a thread with an identifier, with no thread in two variables: the check passes just if the thread
-- may own the variable, which then holds it, and else stops the program. If it passes, still no thread is
-- in two variables, and no other variable changed, nor this one if it was set.
pub check_thread-Decides :
    (t : ℕ) (i : Slot) (s : ThreadIds) → t ≢ 0 → IsApart s → Decides t i s (check_thread t i s)
unfolding check_thread
check_thread-Decides t i s real p = elim (Bool-cases (s i == 0)) [
  | inl unset ↦ rw (unset, check_all_apart (set_id i t s)) (first (ground arith))
  | inr set ↦ rw set (again set)
]
  where
    first :
        s i ≡ 0
        → Decides t i s (
            if apart
              (set_id i t s main_thread)
              (set_id i t s settings_thread)
              (set_id i t s stats_thread)
            then (ok tt, set_id i t s)
            else (abort "cussert", set_id i t s))
    first z =
        elim (Bool-cases (
          apart (set_id i t s main_thread) (set_id i t s settings_thread)
            (set_id i t s stats_thread))) [
              | inl fine ↦ rw fine (
                inr (z, no_other t i s fine real z),
                set_id_self t i s,
                apart-IsApart (set_id i t s) fine,
                λ j. elim (set_id_other t i j s) [ inl e ↦ inl e | inr e ↦ inr (e, z) ],
              )
              | inr clash ↦ rw clash (λ m. elim m [
                | inl e ↦ real (sym e ∙ z)
                | inr (z', h) ↦ absurd (let a = apart-set_id t i s p h in cc)
              ])
            ]

    again :
        (s i == 0) ≡ false
        → Decides t i s (continue (λ u. check_all_thread_ids_collision) (cussert (s i == t) s))
    again set = elim (Bool-cases (s i == t)) [
      | inl same ↦
          rw (same, check_all_apart s, IsApart-apart s p)
            (let e : s i ≡ t = ground arith in (inl e, e, p, λ j. inl refl))
      | inr other ↦
          rw other
            (λ m. elim m [ inl e ↦ absurd (ground arith) | inr (z, h) ↦ absurd (ground arith) ])
    ]
