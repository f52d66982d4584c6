-- ===== src/Effect/Ends.antt =====
-- What holds of the state however a call ends.
use vpverk.Effect.{Outcome, ok, throw, abort, unfinished, M, continue}

-- However the call ends, the state has `P`.
abbrev pub Leaves : {A T : Type 0} → (T → Type 0) → Outcome A × T → Type 0
Leaves P r = P r.1

pub continue-Leaves :
    {A B T : Type 0} (P Q : T → Type 0) (f : A → M T B) (x : Outcome A × T)
    → Leaves P x
    → ((t : T) → P t → Q t)
    → ((a : A) (t : T) → P t → Leaves Q (f a t))
    → Leaves Q (continue f x)
continue-Leaves P Q f (ok a, t) h weaken g = g a t h
continue-Leaves P Q f (throw e, t) h weaken g = weaken t h
continue-Leaves P Q f (abort m, t) h weaken g = weaken t h
continue-Leaves P Q f (unfinished, t) h weaken g = weaken t h
