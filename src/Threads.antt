-- ===== src/Threads.antt =====
-- The checks of threads in a debug build (src/shared/threadchecking.hpp). A thread is a number, and 0 is
-- the empty `std::thread::id()`.
pub mod Owner
use vpverk.Base.{
  ℕ, zero, suc, ◌-◌, ◌%◌, ◌^◌, Bool, true, false, not, ◌&&◌, ◌||◌, Option, none, some, List, [],
  ◌∷◌, length, ◌==◌, if◌then◌else◌,
}
use vpverk.Effect.{Outcome, ok, throw, abort, unfinished, M, continue, ◌>>=◌, ◌>>◌}

-- `mainThreadID`, `settingsThreadID` and `statsThreadID`
pub data Slot : Type 0 where
  main_thread settings_thread stats_thread : Slot

abbrev pub ThreadIds : Type 0
ThreadIds = Slot → ℕ

-- the same variable, by its address
abbrev same_slot : Slot → Slot → Bool
same_slot main_thread main_thread = true
same_slot main_thread settings_thread = false
same_slot main_thread stats_thread = false
same_slot settings_thread main_thread = false
same_slot settings_thread settings_thread = true
same_slot settings_thread stats_thread = false
same_slot stats_thread main_thread = false
same_slot stats_thread settings_thread = false
same_slot stats_thread stats_thread = true

-- `cussert`
abbrev pub cussert : {T : Type 0} → Bool → M T (Unit {0})
cussert true s = (ok tt, s)
cussert false s = (abort "cussert", s)

-- The inner loop of `checkAllThreadIDsCollision`
unfoldable pub differs : ℕ → List ℕ → M ThreadIds (Unit {0})
differs a [] s = (ok tt, s)
differs a (b ∷ later) s =
    let rest = differs a later s in
    if b == 0 then rest else continue (λ u. differs a later) (cussert (not (a == b)) s)

-- The outer loop
unfoldable pub all_differ : List ℕ → M ThreadIds (Unit {0})
all_differ [] s = (ok tt, s)
all_differ (a ∷ later) s = continue (λ u. all_differ later) (differs a later s)

-- `checkAllThreadIDsCollision`
unfoldable pub check_all_thread_ids_collision : M ThreadIds (Unit {0})
check_all_thread_ids_collision s =
    all_differ (s main_thread ∷ s settings_thread ∷ s stats_thread ∷ []) s

-- `*thread = std::this_thread::get_id()`
unfoldable pub set_id : Slot → ℕ → ThreadIds → ThreadIds
set_id i t s j = if same_slot j i then t else s j

-- `checkThread(thread)`, called on the thread `t`
unfoldable pub check_thread : ℕ → Slot → M ThreadIds (Unit {0})
check_thread t i s =
    if s i == 0
    then check_all_thread_ids_collision (set_id i t s)
    else continue (λ u. check_all_thread_ids_collision) (cussert (s i == t) s)

-- `checkThreadIsNOT(thread)`
unfoldable pub check_thread_is_not : ℕ → Slot → M ThreadIds (Unit {0})
check_thread_is_not t i s = cussert (not (s i == t)) s

-- The loop of `checkThread(count...)`, with the pointers that it takes; none is the null pointer.
-- With a count of 1 the pointer is read before it is tested, which is a crash if it is null.
unfoldable any_equal : ℕ → Bool → List (Option Slot) → Bool → M ThreadIds (Unit {0})
any_equal t alone [] was_eq s = cussert was_eq s
any_equal t alone (none ∷ ids) was_eq s = if alone then (abort "null pointer", s) else (ok tt, s)
any_equal t alone (some i ∷ ids) was_eq s =
    continue (λ u. any_equal t alone ids (was_eq || (s i == t)))
      (cussert (not (alone && not (s i == t))) s)

-- `checkThread(count...)`, with as many pointers as it is told; `allCount` is the count in 8 bits.
unfoldable check_threads : ℕ → List (Option Slot) → M ThreadIds (Unit {0})
check_threads t ids s =
    continue (λ u. any_equal t (length ids % 2 ^ 8 == 1) ids false)
      (cussert (not (length ids == 0)) s)
