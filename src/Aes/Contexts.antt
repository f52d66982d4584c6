-- ===== src/Aes/Contexts.antt =====
-- `CipherCtx` (src/shared/cvkaes.hpp): objects that own a context of OpenSSL each, which they free when they
-- are destroyed. Objects and contexts stand for their addresses.
pub mod Sound
use vpverk.Base.{ℕ, suc, Bool, true, false, Option, none, some, List, [], ◌∷◌, if◌then◌else◌}
use vpverk.Schedule.Places.{moved}
use vpverk.Pointers.{pass_on, swap_pointers}

-- The contexts that are allocated, how often one was freed that is not, which objects exist, and the
-- pointer `ptr` of each, null where there is no object.
pub record Contexts : Type 0 where
  pub live : ℕ → Bool
  pub faults : ℕ
  pub exists : ℕ → Bool
  pub ptr : ℕ → Option ℕ

-- What a program does with these objects: the constructor, with what `EVP_CIPHER_CTX_new` answers, the
-- move constructor, the move assignment, the destructor.
pub data ContextOperation : Type 0 where
  makes : ℕ → Option ℕ → ContextOperation
  moves assigns : ℕ → ℕ → ContextOperation
  destroys : ℕ → ContextOperation

-- `ptr(EVP_CIPHER_CTX_new())`. OpenSSL does not give a context that is allocated.
unfoldable pub allocate : ℕ → Option ℕ → Contexts → Contexts
allocate i none s = record s { exists = moved s.exists i true }
allocate i (some c) s = if s.live c then s else record s {
  live = moved s.live c true;
  exists = moved s.exists i true;
  ptr = moved s.ptr i (some c);
}

-- `if (ptr) EVP_CIPHER_CTX_free(ptr)`
unfoldable pub free_context : Option ℕ → Contexts → Contexts
free_context none s = s
free_context (some c) s = record s {
  live = moved s.live c false;
  faults = if s.live c then s.faults else suc s.faults;
}

-- One operation. An object is made only where there is none, and used only where there is one: what else
-- is written here does nothing.
unfoldable pub context_operate : ContextOperation → Contexts → Contexts
context_operate (makes i p) s = if s.exists i then s else allocate i p s
context_operate (moves i o) s =
    if s.exists i
    then s
    else if s.exists o
    then record s { exists = moved s.exists i true; ptr = pass_on i o s.ptr }
    else s
context_operate (assigns i o) s =
    if s.exists i then if s.exists o then record s { ptr = swap_pointers i o s.ptr } else s else s
context_operate (destroys i) s =
    if s.exists i
    then record (free_context (s.ptr i) s) {
      exists = moved s.exists i false;
      ptr = moved s.ptr i none;
    }
    else s

unfoldable pub context_operations : List ContextOperation → Contexts → Contexts
context_operations [] s = s
context_operations (o ∷ os) s = context_operations os (context_operate o s)

-- Nothing is allocated, and no object exists.
abbrev pub no_contexts : Contexts
no_contexts = record { live = λ _. false; faults = 0; exists = λ _. false; ptr = λ _. none }
