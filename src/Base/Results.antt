-- ===== src/Base/Results.antt =====
-- Exceptions as values: what a function of the program throws is the `err` of its result.
use Prim.Native.Nat.{ℕ}
use Prim.Native.String.{String}
use mathlib.Core.List.{List}

-- A message is its literal text and the bytes that the program appends to it.
-- `out_of_fuel` is the model's own: a loop did not end within its bound.
pub data Error : Type 0 where
  invalid_argument runtime_error : String → List ℕ → Error
  -- HttpStatusError, InvalidHttpResponseError, and whatever the transport throws.
  http_status_error : ℕ → Error
  invalid_http_response : String → List ℕ → Error
  transport_error out_of_fuel : Error

-- What was thrown, or what was returned.
pub data Result {ℓ} (A : Type ℓ) : Type ℓ where
  err : Error → Result A
  ok : A → Result A

module _ {ℓ κ} {A : Type ℓ} {B : Type κ} where
  infixl 5 ◌>>=◌
  -- The rest of a function's body, which an exception skips.
  abbrev pub ◌>>=◌ : Result A → (A → Result B) → Result B
  err thrown >>= rest = err thrown
  ok returned >>= rest = rest returned

  infixl 5 ◌>>◌
  abbrev pub ◌>>◌ : Result A → Result B → Result B
  step >> rest = step >>= λ unused. rest
