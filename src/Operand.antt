-- ===== src/Operand.antt =====
-- src/machine/vm.c, the macros at its top: how an instruction reads its operands. Reading a member
-- of the union that was not the one written is a fault.
use nord.Prelude.{ℕ, Bool, true, false, not, none, some, List, if◌then◌else◌}
use nord.Prelude.Result.{Result, ok, fault, indeterminate, null_pointer, ◌>>=◌}
use nord.Floats.{Floats}
use nord.Value.{Value, ValueType, type_of}

abbrev pub bit : Bool → ℕ
bit true = 1
bit false = 0

module _ {R : Type 0} where
  -- `.type`
  unfoldable pub type_read : Value R → Result ValueType
  type_read v = elim (type_of v) [ none ↦ fault indeterminate | some t ↦ ok t ]

  -- `NUM3`, `NUM2`
  unfoldable pub number_of : Value R → Result ℕ
  number_of (Value.int n) = ok n
  number_of (Value.boolean b true) = ok (bit b)
  number_of _ = fault indeterminate

  -- `STRING3`, `STR2`: another value's contents is no pointer to a text.
  unfoldable pub string_of : Value R → Result (List ℕ)
  string_of (Value.str s) = ok s
  string_of Value.indeterminate = fault indeterminate
  string_of _ = fault null_pointer

  -- `IS_NUMBERISH3`
  unfoldable pub is_numberish : Value R → Result Bool
  is_numberish (Value.int n) = ok true
  is_numberish (Value.real x) = ok true
  is_numberish (Value.boolean b w) = ok true
  is_numberish Value.indeterminate = fault indeterminate
  is_numberish _ = ok false

  -- `REG_TYPE3(a, VAL_FLOAT)`, `REG_TYPE3(a, VAL_STRING)`
  unfoldable pub is_float : Value R → Result Bool
  is_float (Value.real x) = ok true
  is_float Value.indeterminate = fault indeterminate
  is_float _ = ok false

  unfoldable pub is_string : Value R → Result Bool
  is_string (Value.str s) = ok true
  is_string Value.indeterminate = fault indeterminate
  is_string _ = ok false

-- `p(a) && p(b)` and `p(a) || p(b)` on tests that may be undefined
abbrev pub both : Result Bool → Result Bool → Result Bool
both p q = p >>= λ a. if a then q else ok false

abbrev pub either : Result Bool → Result Bool → Result Bool
either p q = p >>= λ a. if a then ok true else q

module _ (F : Floats) where
  open F use {Real, of_int, eq}

  -- `NUM_OR_FLOAT3`: the branches of the conditional have the type `float` together, so a number
  -- is converted.
  unfoldable pub num_or_float : Value Real → Result Real
  unfolding number_of
  num_or_float (Value.real x) = ok x
  num_or_float v = number_of v >>= λ n. ok (of_int n)

  -- `NUM_OR_FLOAT_OR_BOOL3`
  unfoldable pub num_or_float_or_bool : Value Real → Result Real
  num_or_float_or_bool (Value.real x) = ok x
  num_or_float_or_bool (Value.int n) = ok (of_int n)
  num_or_float_or_bool (Value.boolean b w) = ok (of_int (bit b))
  num_or_float_or_bool v = fault indeterminate

  -- A `float` as a condition.
  abbrev pub nonzero : Real → Bool
  nonzero x = not (eq x (of_int 0))
