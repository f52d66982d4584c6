-- ===== src/Startup/Ready.antt =====
-- When the calls of `onAsyncStart` in the chain of `main` (src/server/main.cpp) pass.
use vpverk.Base.{ℕ, ◌+◌, ◌≡◌, some, List, get_elem?}
use vpverk.Startup.{Context, index}

-- The contexts come in the order of their numbers, from `n` on.
abbrev pub InOrder : ℕ → List Context → Type 0
InOrder n cs = (i : ℕ) (c : Context) → get_elem? cs i ≡ some c → index c ≡ n + i
