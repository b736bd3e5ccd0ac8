-- ===== src/Operators/Types.antt =====
-- src/machine/vm.c against `arithmetic_cast` of src/machine/value.c, by which the compiler
-- predicts the type of an arithmetic expression.
use nord.Prelude.{ℕ, ◌≡◌, some, List}
use nord.Prelude.Result.{ok}
use nord.Floats.{Floats}
use nord.Value
use nord.Value.{Value, ValueType, type_of, arithmetic_cast, same_type, string_create}
use nord.Operand.{number_of, string_of, is_float, is_string, num_or_float}
use nord.Operators.{add_values}

-- The values that `+` is for.
pub data IsScalar {R : Type 0} : Value R → ValueType → Type 0 where
  an_int : (n : ℕ) → IsScalar (Value.int n) Value.val_int
  a_real : (x : R) → IsScalar (Value.real x) Value.val_float
  a_str : (s : List ℕ) → IsScalar (Value.str s) Value.val_string

module _ (F : Floats) where
  open F use {Real}

  -- If an addition of integers, floats and texts gives a value, then it has the type that
  -- `arithmetic_cast` predicts from the types of the operands.
  pub add_values-type_of :
      (a b r : Value Real) (t u : ValueType)
      → IsScalar a t
      → IsScalar b u
      → add_values F a b ≡ ok r
      → type_of r ≡ some (arithmetic_cast t u)
  unfolding add_values arithmetic_cast same_type is_float is_string num_or_float number_of string_of
      string_create
  add_values-type_of a b r t u (an_int n) (an_int m) h = cc
  add_values-type_of a b r t u (an_int n) (a_real y) h = cc
  add_values-type_of a b r t u (an_int n) (a_str z) h = cc
  add_values-type_of a b r t u (a_real x) (an_int m) h = cc
  add_values-type_of a b r t u (a_real x) (a_real y) h = cc
  add_values-type_of a b r t u (a_real x) (a_str z) h = cc
  add_values-type_of a b r t u (a_str s) (an_int m) h = cc
  add_values-type_of a b r t u (a_str s) (a_real y) h = cc
  add_values-type_of a b r t u (a_str s) (a_str z) h = cc
