-- ===== src/Operators/Comparison.antt =====
-- src/machine/vm.c: the comparisons of two integers, which are made on floats.
use nord.Prelude.{ℕ, ◌≡◌, ◌==◌, ap}
use nord.Prelude.Result.{ok}
use nord.Floats.{Floats, IsSmall, IsExact}
use nord.Word.{slt}
use nord.Value.{Value}
use nord.Operand.{number_of, is_numberish, num_or_float, num_or_float_or_bool, type_read}
use nord.Operators.{equal_values, lessthan_values}

module _ (F : Floats) (exact : IsExact F) where
  -- Between -2 ^ 24 and 2 ^ 24 the two comparisons are those of the integers, although the operands
  -- are converted to floats.
  pub compare_ints :
      (a b : ℕ)
      → IsSmall a
      → IsSmall b
      → (lessthan_values F (Value.int a) (Value.int b) ≡ ok (slt a b))
        × (equal_values F (Value.int a) (Value.int b) ≡ ok (a == b))
  unfolding lessthan_values equal_values is_numberish num_or_float num_or_float_or_bool number_of
      type_read
  compare_ints a b p q = (ap ok (exact.lt-of_int a b p q), ap ok (exact.eq-of_int a b p q))
