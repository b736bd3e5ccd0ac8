-- ===== src/Operators.antt =====
-- src/machine/vm.c, `vm_execute`: the instructions that compute with the registers: arithmetic,
-- logic, and the two comparisons that skip the next instruction. Each is a function of the operands
-- that `with_operands` runs on two registers. An instruction that would leave an unset truth value
-- in a register is a fault.
pub mod Types
pub mod Comparison
use nord.Prelude.{
  ℕ, zero, suc, ◌+◌, ◌-◌, ◌*◌, ◌/◌, ◌%◌, ◌^◌, Bool, true, false, ◌&&◌, ◌||◌, not, Option, none,
  some, List, [], ◌∷◌, ◌++◌, ltb, leb, ◌==◌, if◌then◌else◌, length, get_elem?, set, replicate, drop,
  str_eq,
}
use nord.Prelude.Int.{ℤ, pos, negsuc}
use nord.Prelude.Result.{
  Result, ok, fault, out_of_bounds, indeterminate, assertion, null_pointer, out_of_fuel, ◌>>=◌,
}
use nord.Memory.{memory_set, memory_get}
use nord.Floats.{Floats}
use nord.Word.{wadd, wsub, wmul, wneg, wmod, widen16, widen32}
use nord.Symbol.{symbol_map_set}
use nord.Value.{
  Value, Values, ValueType, Address, FunctionDef, Iterator, is_collection, to_list, same_type,
  module_create, string_create,
}
use nord.Operand.{
  bit, type_read, number_of, string_of, is_numberish, is_float, is_string, both, either,
  num_or_float, num_or_float_or_bool, nonzero,
}
use nord.Machine.{
  Opcode, Instruction, Vm, Frame, found, vm_stack_push, vm_stack_pop, vm_cstack_push, vm_cstack_pop,
  get_register, set_register, pair1, pair2,
}
use nord.Builtins.{call_builtin}

module _ {R : Type 0} where
  -- Reads the last two operands of a triplet and stores the result in the first.
  unfoldable pub with_operands :
      (Value R → Value R → Result (Value R)) → Instruction → Vm R → Result (Vm R)
  unfolding get_register set_register
  with_operands f i vm = get_register vm i.byte1 >>= λ a.
      get_register vm i.byte2 >>= λ b. f a b >>= λ r. set_register vm i.byte0 r

  -- A comparison: the next instruction is skipped if the result is not the first operand.
  unfoldable pub with_comparison :
      (Value R → Value R → Result Bool) → Instruction → Vm R → Result (Vm R)
  unfolding get_register
  with_comparison f i vm = get_register vm i.byte1 >>= λ a. get_register vm i.byte2 >>= λ b.
      f a b >>= λ r. ok (if bit r == i.byte0 then vm else record vm { pc = vm.pc + 1 })

  unfoldable pub modulo_values : Value R → Value R → Result (Value R)
  unfolding number_of wmod
  modulo_values a b = number_of a >>= λ m. number_of b >>= λ n. wmod m n >>= λ r. ok (Value.int r)

  unfoldable pub exec_negate : Instruction → Vm R → Result (Vm R)
  unfolding get_register set_register number_of wneg
  exec_negate i vm = get_register vm (pair2 i) >>= λ v.
      number_of v >>= λ n. set_register vm (pair1 i) (Value.int (wneg n))

module _ (F : Floats) where
  open F use {Real, of_int, add, sub, mul, div, lt, eq}

  -- The numbers of two operands, by the two macros.
  abbrev reals : Value Real → Value Real → Result (Real × Real)
  reals a b = num_or_float F a >>= λ x. num_or_float F b >>= λ y. ok (x, y)

  abbrev numbers : Value Real → Value Real → Result (ℕ × ℕ)
  numbers a b = number_of a >>= λ m. number_of b >>= λ n. ok (m, n)

  unfoldable pub add_values : Value Real → Value Real → Result (Value Real)
  unfolding num_or_float number_of string_of is_float is_string string_create wadd
  add_values a b = either (is_float a) (is_float b) >>= λ float.
      if float
      then reals a b >>= (λ p. ok (Value.real (add p.0 p.1)))
      else either (is_string a) (is_string b) >>= (λ string.
        if string
        then string_of a >>= (λ s. string_of b >>= λ t. ok (string_create (s ++ t)))
        else numbers a b >>= (λ p. ok (Value.int (wadd p.0 p.1))))

  unfoldable pub subtract_values : Value Real → Value Real → Result (Value Real)
  unfolding num_or_float number_of is_float wsub
  subtract_values a b = either (is_float a) (is_float b) >>= λ float.
      if float
      then reals a b >>= (λ p. ok (Value.real (sub p.0 p.1)))
      else numbers a b >>= (λ p. ok (Value.int (wsub p.0 p.1)))

  unfoldable pub multiply_values : Value Real → Value Real → Result (Value Real)
  unfolding num_or_float number_of is_float wmul
  multiply_values a b = either (is_float a) (is_float b) >>= λ float.
      if float
      then reals a b >>= (λ p. ok (Value.real (mul p.0 p.1)))
      else numbers a b >>= (λ p. ok (Value.int (wmul p.0 p.1)))

  unfoldable pub divide_values : Value Real → Value Real → Result (Value Real)
  unfolding num_or_float
  divide_values a b = reals a b >>= λ p. ok (Value.real (div p.0 p.1))

  unfoldable pub and_values : Value Real → Value Real → Result (Value Real)
  unfolding is_numberish num_or_float_or_bool
  and_values a b = both (is_numberish a) (is_numberish b) >>= λ numberish.
      if numberish
      then both (num_or_float_or_bool F a >>= λ x. ok (nonzero F x))
          (num_or_float_or_bool F b >>= λ y. ok (nonzero F y))
        >>= (λ r. ok (Value.boolean r false))
      else fault indeterminate

  unfoldable pub or_values : Value Real → Value Real → Result (Value Real)
  unfolding is_numberish num_or_float
  or_values a b = both (is_numberish a) (is_numberish b) >>= λ numberish.
      if numberish
      then either (num_or_float F a >>= λ x. ok (nonzero F x))
          (num_or_float F b >>= λ y. ok (nonzero F y))
        >>= (λ r. ok (Value.boolean r false))
      else fault indeterminate

  abbrev pub truth_not : Value Real → Result Bool
  truth_not (Value.int n) = ok (n == 0)
  truth_not (Value.real x) = ok (not (nonzero F x))
  truth_not (Value.boolean b w) = ok (not b)
  truth_not Value.absent = ok true
  truth_not (Value.str s) = ok (length s == 0)
  truth_not _ = fault indeterminate

  unfoldable pub exec_not : Instruction → Vm Real → Result (Vm Real)
  unfolding get_register set_register
  exec_not i vm = get_register vm (pair2 i) >>= λ v.
      truth_not v >>= λ r. set_register vm (pair1 i) (Value.boolean r false)

  -- Two values of one type that are not numbers.
  abbrev equal_alike : Value Real → Value Real → Result Bool
  equal_alike (Value.str s) (Value.str t) = ok (str_eq s t)
  equal_alike Value.nil Value.nil = ok true
  equal_alike _ _ = fault indeterminate

  unfoldable pub equal_values : Value Real → Value Real → Result Bool
  unfolding is_numberish num_or_float_or_bool type_read same_type
  equal_values a b = both (is_numberish a) (is_numberish b) >>= λ numberish. type_read a >>= λ t.
      type_read b >>= λ u.
      if numberish
      then num_or_float_or_bool F a >>= (λ x. num_or_float_or_bool F b >>= λ y. ok (eq x y))
      else if same_type t u
      then equal_alike a b
      else ok false

  unfoldable pub lessthan_values : Value Real → Value Real → Result Bool
  unfolding is_numberish num_or_float
  lessthan_values a b = both (is_numberish a) (is_numberish b) >>= λ numberish.
      if numberish then reals a b >>= (λ p. ok (lt p.0 p.1)) else fault indeterminate
