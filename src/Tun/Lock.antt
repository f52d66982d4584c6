-- ===== src/Tun/Lock.antt =====
-- `Tun::Lock` (src/shared/tun.hpp) and `Tun::lock` (src/shared/tun.cpp): objects that give a flag back
-- when they are destroyed. Flags and objects stand for their addresses.
pub mod Owned
pub mod Kept
pub mod Lost
mod Tests
use vpverk.Base.{ℕ, Bool, true, false, Option, none, some, List, [], ◌∷◌, if◌then◌else◌, ◌==◌}
use vpverk.Schedule.Places.{moved}
use vpverk.Pointers.{pass_on}

-- The flags, which objects exist, and the pointer `l` of each, null where there is no object.
pub record Store : Type 0 where
  pub flag : ℕ → Bool
  pub exists : ℕ → Bool
  pub l : ℕ → Option ℕ

-- What a program does with these objects: the default constructor, a turn of the loop of `lock`, the
-- move constructor, the move assignment, the destructor.
pub data Operation : Type 0 where
  makes destroys : ℕ → Operation
  locks moves assigns : ℕ → ℕ → Operation

-- `this->l == o.l`
unfoldable pub same_pointer : Option ℕ → Option ℕ → Bool
same_pointer none none = true
same_pointer (some a) (some b) = a == b
same_pointer _ _ = false

-- `l->store(false)`, if `l` is not null
unfoldable pub store_false : Option ℕ → (ℕ → Bool) → ℕ → Bool
store_false none flag = flag
store_false (some f) flag = moved flag f false

-- One operation. An object is made only where there is none, and used only where there is one: what else
-- is written here does nothing. `lock` goes on as long as the exchange gives true.
unfoldable pub operate : Operation → Store → Store
operate (makes i) s = if s.exists i then s else record s { exists = moved s.exists i true }
operate (locks i f) s = if s.exists i then s else if s.flag f then s else record {
  flag = moved s.flag f true;
  exists = moved s.exists i true;
  l = moved s.l i (some f);
}
operate (moves i o) s =
    if s.exists i
    then s
    else if s.exists o
    then record s { exists = moved s.exists i true; l = pass_on i o s.l }
    else s
operate (assigns i o) s =
    if s.exists i
    then if s.exists o
      then if same_pointer (s.l i) (s.l o) then s else record s { l = pass_on i o s.l }
      else s
    else s
operate (destroys i) s =
    if s.exists i
    then record {
      flag = store_false (s.l i) s.flag;
      exists = moved s.exists i false;
      l = moved s.l i none;
    }
    else s

unfoldable pub operations : List Operation → Store → Store
operations [] s = s
operations (o ∷ os) s = operations os (operate o s)

-- No object exists, and no flag is set.
abbrev pub empty : Store
empty = record { flag = λ _. false; exists = λ _. false; l = λ _. none }
