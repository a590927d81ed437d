-- ===== src/Base/Errors.antt =====
-- Errors of the program, and results of fallible code: Go's pair of a value and an `error`.
use Prim.Native.Nat.{ℕ}
use mathlib.Core.List.{List}
use epoxy.Base.Text.{Str}

-- The errors that the source names, those that libraries return (by their text), and the panic on
-- a nil dereference.
pub data Error : Type 0 where
  action_url_not_found file_url_not_found unsupported_type cannot_access_host : Error
  bad_status : ℕ → Error
  external : Str → Error
  command_failed : List Str → Error → Error
  nil_dereference : Error

-- A value, or what ends the computation early.
pub data Outcome {ℓ} (E A : Type ℓ) : Type ℓ where
  ok : A → Outcome E A
  err : E → Outcome E A

abbrev pub Result : Type 0 → Type 0
Result A = Outcome Error A
