-- ===== src/Effect.antt =====
-- How a call ends: with a value, by an exception, or by `cuabort` (src/shared/cussert.cpp).
pub mod Ends
pub mod Post
use vpverk.Base.{ℕ, String, List}

-- The `std::error_code` values that the sources name; `other` is any other code of the system.
pub data ErrorCode : Type 0 where
  message_size no_buffer_space invalid_argument not_enough_memory io_error : ErrorCode
  connection_reset would_block try_again eof operation_canceled : ErrorCode
  other : ℕ → ErrorCode

-- `tl::expected<A, std::error_code>`
pub data Expected {ℓ} (A : Type ℓ) : Type ℓ where
  value : A → Expected A
  unexpected : ErrorCode → Expected A

-- `std::runtime_error` by the text that starts its message, with what the message appends.
pub data Exception : Type 0 where
  runtime_error : String → Exception
  with_code : String → ErrorCode → Exception
  with_number : String → ℕ → Exception
  with_text : String → List ℕ → Exception

-- `abort` is a call of `cuabort`, which is [[noreturn]], with its text; `unfinished` is a loop whose
-- fuel ran out.
pub data Outcome {ℓ} (A : Type ℓ) : Type ℓ where
  ok : A → Outcome A
  throw : Exception → Outcome A
  abort : String → Outcome A
  unfinished : Outcome A

-- A computation over a state. What was written before a throw stays written.
abbrev pub M {ℓ} : Type ℓ → Type ℓ → Type ℓ
M S A = S → Outcome A × S

module _ {ℓ} {S A B : Type ℓ} where
  abbrev pub continue : (A → M S B) → Outcome A × S → Outcome B × S
  continue f (ok a, s) = f a s
  continue f (throw e, s) = (throw e, s)
  continue f (abort m, s) = (abort m, s)
  continue f (unfinished, s) = (unfinished, s)

  infixl 5 ◌>>=◌ ◌>>◌
  abbrev pub ◌>>=◌ : M S A → (A → M S B) → M S B
  ◌>>=◌ m f s = continue f (m s)

  abbrev pub ◌>>◌ : M S A → M S B → M S B
  ◌>>◌ m k s = continue (λ _. k) (m s)
