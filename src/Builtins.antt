-- ===== src/Builtins.antt =====
-- src/lang/builtins.c: the functions that a program calls by name, and src/util/dl.c's lookup of
-- them. Each takes its arguments off the stack and pushes its result.
pub mod Range
pub mod Pops
use nord.Prelude.{
  ℕ, zero, suc, ◌+◌, ◌-◌, ◌*◌, ◌/◌, ◌%◌, ◌^◌, Bool, true, false, Option, none, some, List, [], ◌∷◌,
  ◌++◌, ltb, ◌==◌, if◌then◌else◌, length, get_elem?, str_eq,
}
use nord.Prelude.Result.{
  Result, ok, fault, out_of_bounds, indeterminate, assertion, exits, out_of_fuel, ◌>>=◌,
}
use nord.Floats.{Floats}
use nord.Word.{wadd, wsub, slt, is_negative, magnitude}
use nord.Value.{
  Value, Values, Iterator, of_list, to_list, is_collection, value_from_int, string_create,
}
use nord.Machine.{Vm, found, vm_stack_push, vm_stack_pop, get_register, iterator_create}
use nord.Operand.{number_of, bit}
use mathlib.Core.Option
use Prim.Native.String.{String}
use Prim.Native.Char.{code}

-- The bytes of an ASCII text.
abbrev pub codes : String → List ℕ
codes String.[] = []
codes (String.◌∷◌ c s) = code c ∷ codes s

-- `%d`: ten rounds are enough for 32 bits.
abbrev decimal : ℕ → ℕ → List ℕ
decimal zero n = []
decimal (suc fuel) n =
    let front = decimal fuel (n / 10) in
    if ltb n 10 then (48 + n) ∷ [] else front ++ (48 + n % 10) ∷ []

abbrev pub show_int : ℕ → List ℕ
show_int n = if is_negative n then b'-' ∷ decimal 10 (magnitude n) else decimal 10 n

abbrev pub show_bool : Bool → List ℕ
show_bool true = codes "true"
show_bool false = codes "false"

module _ (F : Floats) where
  open F use {Real, to_int, show}

  -- `print_internal` over what it does with an iterator.
  unfoldable mutual
    pub print_with : (ℕ → Result (List ℕ)) → Value Real → Result (List ℕ)
    print_with cell (Value.str s) = ok s
    print_with cell (Value.int n) = ok (show_int n)
    print_with cell (Value.real x) = ok (show x)
    print_with cell (Value.boolean b w) = ok (show_bool b)
    print_with cell Value.absent = ok (codes "nothing")
    print_with cell (Value.tuple vs) = print_items cell true vs >>= λ t. ok (b'(' ∷ t ++ b')' ∷ [])
    print_with cell (Value.iterator i) = cell i
    print_with cell Value.nil = ok (codes "nil")
    print_with cell (Value.function f) = ok (codes "function")
    print_with cell (Value.module_ m) = ok (codes "module")
    print_with cell Value.unknown = ok (codes "unknown")
    print_with cell Value.indeterminate = fault indeterminate

    -- the loop over a tuple, with a comma before every element but the first
    pub print_items : (ℕ → Result (List ℕ)) → Bool → Values Real → Result (List ℕ)
    print_items cell first Values.end = ok []
    print_items cell first (Values.item v vs) = print_with cell v >>= λ t.
        print_items cell false vs >>= λ rest. ok ((if first then [] else codes ", ") ++ (t ++ rest))

  -- An iterator's collection was built before it, so one level for each cell of the heap is enough.
  unfoldable pub print_internal : ℕ → Vm Real → Value Real → Result (List ℕ)
  unfolding print_with
  print_internal zero vm val = print_with (λ i. fault out_of_fuel) val
  print_internal (suc fuel) vm val =
      print_with
        (λ i. found (get_elem? vm.heap i) >>= λ iter.
          print_internal fuel vm iter.iterable >>= λ t. ok (codes "Iterator over " ++ t))
        val

  abbrev printed : Vm Real → List ℕ → Result (Vm Real)
  printed vm text =
      vm_stack_push (record vm { output = vm.output ++ text }) (Value.boolean true false)

  unfoldable pub builtin_print : Vm Real → Result (Vm Real)
  unfolding print_internal vm_stack_push vm_stack_pop get_register number_of
  builtin_print vm = do
    r ← get_register vm 0
    num_args ← number_of r
    if num_args == 0
        then printed vm (b'\n' ∷ [])
        else vm_stack_pop vm >>= (λ p.
          print_internal (length vm.heap) vm p.0 >>= λ text. printed p.1 (text ++ b'\n' ∷ []))

  -- The time is the environment's.
  unfoldable pub builtin_time : ℕ → Vm Real → Result (Vm Real)
  unfolding vm_stack_push value_from_int
  builtin_time tm vm = vm_stack_push vm (value_from_int tm)

  -- `registers[0]`, asserted to be a number
  unfoldable pub arity : Vm Real → Result ℕ
  unfolding get_register
  arity vm = get_register vm 0 >>= λ r. elim r [
    | Value.int n ↦ ok n
    | Value.indeterminate ↦ fault indeterminate
    | _ ↦ fault assertion
  ]

  unfoldable pub builtin_iter : Vm Real → Result (Vm Real)
  unfolding arity vm_stack_pop vm_stack_push iterator_create
  builtin_iter vm = do
    num_args ← arity vm
    if num_args == 1
        then vm_stack_pop vm >>= (λ p. iterator_create p.1 p.0 >>= λ it. vm_stack_push it.1 it.0)
        else fault assertion

  -- The loop of `builtin__tuple`.
  unfoldable pub pop_values : ℕ → Vm Real → Result (List (Value Real) × Vm Real)
  pop_values zero vm = ok ([], vm)
  pop_values (suc n) vm =
      vm_stack_pop vm >>= λ p. pop_values n p.1 >>= λ rest. ok (p.0 ∷ rest.0, rest.1)

  -- A tuple of a negative length is not modelled.
  unfoldable pub builtin_tuple : Vm Real → Result (Vm Real)
  unfolding arity pop_values vm_stack_push
  builtin_tuple vm = do
    num_args ← arity vm
    if is_negative num_args
        then fault out_of_bounds
        else pop_values num_args vm >>= (λ p. vm_stack_push p.1 (Value.tuple (of_list p.0)))

  -- The loops of `builtin__range`: `n` numbers from the `i`th on, by a step on patterns.
  unfoldable pub numbers : (ℕ → ℕ → ℕ) → ℕ → ℕ → ℕ → List (Value Real)
  numbers step begin zero i = []
  numbers step begin (suc n) i = Value.int (step begin i) ∷ numbers step begin n (i + 1)

  -- A length that does not fit an `int` is negative, and is not modelled.
  unfoldable pub stepped : (ℕ → ℕ → ℕ) → ℕ → ℕ → Result (Value Real)
  unfolding numbers
  stepped step begin len =
      if is_negative len
      then fault out_of_bounds
      else ok (Value.tuple (of_list (numbers step begin len 0)))

  unfoldable pub range_value : ℕ → ℕ → Result (Value Real)
  range_value begin end =
      if begin == end
      then ok (Value.tuple Values.end)
      else if slt begin end
      then stepped wadd begin (wadd (wsub end begin) 1)
      else stepped wsub begin (wadd (wsub begin end) 1)

  -- two arguments of the type of numbers
  abbrev pub two_ints : Value Real → Value Real → Result (ℕ × ℕ)
  two_ints (Value.int a) (Value.int b) = ok (a, b)
  two_ints Value.indeterminate _ = fault indeterminate
  two_ints _ Value.indeterminate = fault indeterminate
  two_ints _ _ = fault assertion

  unfoldable pub builtin_range : Vm Real → Result (Vm Real)
  unfolding arity vm_stack_pop vm_stack_push range_value
  builtin_range vm = do
    num_args ← arity vm
    if num_args == 2
        then vm_stack_pop vm >>= (λ p. vm_stack_pop p.1 >>= λ q.
            two_ints p.0 q.0 >>= λ ends. range_value ends.0 ends.1 >>= λ val. vm_stack_push q.1 val)
        else fault assertion

  abbrev pub type_text : Value Real → Result (Option (List ℕ))
  type_text (Value.real x) = ok (some (codes "float"))
  type_text (Value.int n) = ok (some (codes "integer"))
  type_text (Value.boolean b w) = ok (some (codes "boolean"))
  type_text (Value.str s) = ok (some (codes "string"))
  type_text (Value.tuple vs) = ok (some (codes "tuple"))
  type_text (Value.iterator i) = ok (some (codes "iterator"))
  type_text Value.nil = ok (some (codes "nil"))
  type_text (Value.function f) = ok (some (codes "function"))
  type_text (Value.module_ m) = ok (some (codes "module"))
  type_text Value.absent = fault assertion
  type_text Value.unknown = ok none
  type_text Value.indeterminate = fault indeterminate

  -- A result is pushed only in the cases that have one.
  abbrev pub push_some : Vm Real → Option (Value Real) → Result (Vm Real)
  push_some vm none = ok vm
  push_some vm (some v) = vm_stack_push vm v

  unfoldable pub builtin_type : Vm Real → Result (Vm Real)
  unfolding get_register number_of vm_stack_pop vm_stack_push string_create
  builtin_type vm = do
    r ← get_register vm 0
    num_args ← number_of r
    if num_args == 1
        then vm_stack_pop vm
          >>= (λ p. type_text p.0 >>= λ t. push_some p.1 (Option.map string_create t))
        else fault assertion

  abbrev pub int_value : Value Real → Result (Option (Value Real))
  int_value (Value.real x) = ok (some (Value.int (to_int x)))
  int_value (Value.boolean b w) = ok (some (Value.int (bit b)))
  int_value Value.indeterminate = fault indeterminate
  int_value _ = ok none

  unfoldable pub builtin_int : Vm Real → Result (Vm Real)
  unfolding vm_stack_pop vm_stack_push
  builtin_int vm = vm_stack_pop vm >>= λ p. int_value p.0 >>= λ v. push_some p.1 v

  abbrev pub string_value : Value Real → Result (Option (Value Real))
  string_value (Value.int n) = ok (some (Value.str (show_int n)))
  string_value (Value.real x) = ok (some (Value.str (show x)))
  string_value (Value.boolean b w) = ok (some (Value.str (show_bool b)))
  string_value Value.indeterminate = fault indeterminate
  string_value _ = ok none

  unfoldable pub builtin_string : Vm Real → Result (Vm Real)
  unfolding vm_stack_pop vm_stack_push
  builtin_string vm = vm_stack_pop vm >>= λ p. string_value p.0 >>= λ v. push_some p.1 v

  -- `dynamic_load_self` of the name behind "builtin__": the program exits if there is no such
  -- function.
  unfoldable pub call_builtin : ℕ → List ℕ → Vm Real → Result (Vm Real)
  unfolding builtin_print builtin_time builtin_iter builtin_tuple builtin_range builtin_type
      builtin_int builtin_string str_eq
  call_builtin tm name vm =
      if str_eq name (codes "print")
      then builtin_print vm
      else if str_eq name (codes "time")
      then builtin_time tm vm
      else if str_eq name (codes "iter")
      then builtin_iter vm
      else if str_eq name (codes "tuple")
      then builtin_tuple vm
      else if str_eq name (codes "range")
      then builtin_range vm
      else if str_eq name (codes "type")
      then builtin_type vm
      else if str_eq name (codes "int")
      then builtin_int vm
      else if str_eq name (codes "string")
      then builtin_string vm
      else fault exits
