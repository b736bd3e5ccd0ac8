-- ===== src/Examples/Machine.antt =====
-- Witnesses of the theorems about the virtual machine, on small machines.
use nord.Prelude.{
  set, if◌then◌else◌, ℕ, ◌≡◌, refl, true, false, none, some, List, [], ◌∷◌, ◌==◌, arith, replicate,
}
use nord.Prelude.Int.{pos}
use nord.Prelude.Result.{ok, fault, out_of_bounds, ◌>>=◌}
use nord.Memory.{Memory}
use nord.Memory.Refinement.{IsValid, view}
use nord.Floats.{Floats, IsExact}
use nord.Word.{wadd, wsub, wmul, slt}
use nord.Symbol.{symbol_map_create}
use nord.Value
use nord.Transfer.{exec_deref}
use nord.Transfer.Iteration.{IsAt, walk, walk-to_list}
use nord.Value.{Values, Value, FunctionDef, type_of, arithmetic_cast, string_create}
use nord.Operand.{is_float, is_string, string_of}
use nord.Machine.{Vm, Instruction, Opcode, vm_stack_push, vm_stack_pop}
use nord.Machine.Stacks.{pop-push}
use nord.Operators.{add_values}
use nord.Operators.Types.{a_str, add_values-type_of}
use nord.Builtins.{range_value, pop_values}
use nord.Builtins.Range.{IsProgression, range_value-IsProgression}
use nord.Builtins.Pops.{push_values, pop_values-push_values}
use nord.Calls.{Environment}
use nord.Codegen.Blocks.{comparison_code}

-- The integers in place of the floats.
abbrev pub sample_floats : Floats
sample_floats = record {
  Real = ℕ;
  of_int = λ n. n;
  to_int = λ n. n;
  add = wadd;
  sub = wsub;
  mul = wmul;
  div = λ a b. a;
  lt = slt;
  eq = λ a b. a == b;
  show = λ n. n ∷ [];
}

pub sample_floats-IsExact : IsExact sample_floats
sample_floats-IsExact = record { eq-of_int = λ a b p q. refl; lt-of_int = λ a b p q. refl }

abbrev truths : List (Value ℕ)
truths = Value.boolean false true ∷ Value.boolean true true ∷ []

-- 3 < 5 with the operands in the registers 2 and 3, and the result in 1.
abbrev pub compare_code : List Instruction
compare_code = comparison_code nord.Machine.op_lessthan 1 1 2 3

abbrev pub sample_vm : Vm ℕ
sample_vm = record {
  memory = record { capacity = 2; contents = truths };
  stack = record { capacity = 4; contents = replicate 4 Value.absent };
  sp = pos 0;
  call_stack = record { capacity = 4; contents = replicate 4 none };
  csp = pos 0;
  regions = compare_code ∷ [];
  region = 0;
  pc = 0;
  registers = Value.int 2 ∷ Value.absent ∷ Value.int 3 ∷ Value.int 5 ∷ [];
  frame = none;
  inbound = record { capacity = 4; contents = replicate 4 Value.absent };
  size_inbound = 0;
  outbound = record { capacity = 4; contents = replicate 4 Value.absent };
  size_outbound = 0;
  symbols = symbol_map_create;
  heap = [];
  output = [];
}

abbrev pub sample_environment : Environment
sample_environment = record { now = 7; run_module = λ name. fault out_of_bounds }

pub sample_stack-IsValid : IsValid sample_vm.stack
sample_stack-IsValid = record { allocated = refl; nonempty = omega arith; small = omega arith }

pop-push_example :
    (next : Vm ℕ) × (vm_stack_push sample_vm (Value.int 9) ≡ ok next)
    × (next.sp ≡ pos 1)
    × IsValid next.stack
    × (vm_stack_pop next ≡ ok (Value.int 9, record next { sp = pos 0 }))
    × ((i : ℕ)
        → view Value.absent next.stack i
          ≡ (if i == 0 then Value.int 9 else view Value.absent sample_vm.stack i))
pop-push_example =
    pop-push sample_vm 0 (Value.int 9) sample_stack-IsValid refl (omega arith) (omega arith)

added :
    add_values sample_floats (Value.str (97 ∷ [])) (Value.str (98 ∷ []))
    ≡ ok (Value.str (97 ∷ 98 ∷ []))
unfolding add_values is_float is_string string_of string_create
added = refl

add_values-type_of_example :
    type_of {R = ℕ} (Value.str (97 ∷ 98 ∷ []))
    ≡ some (arithmetic_cast Value.val_string Value.val_string)
add_values-type_of_example =
    add_values-type_of sample_floats (Value.str (97 ∷ [])) (Value.str (98 ∷ []))
      (Value.str (97 ∷ 98 ∷ [])) Value.val_string Value.val_string (a_str (97 ∷ []))
      (a_str (98 ∷ [])) added

range_value-IsProgression_example :
    IsProgression sample_floats (range_value sample_floats 2 (wadd 2 3)) 3 (wadd 2)
    × IsProgression sample_floats (range_value sample_floats (wadd 2 3) 2) 3 (wsub (wadd 2 3))
unfolding slt wadd
range_value-IsProgression_example =
    range_value-IsProgression sample_floats 2 3 (omega arith) (omega arith) (omega arith) refl

pop_values-push_values_example :
    (mem : Memory (Value ℕ)) × ((push_values (Value.int 1 ∷ Value.nil ∷ []) sample_vm >>= λ pushed.
    pop_values sample_floats 2 pushed)
      ≡ ok (Value.int 1 ∷ Value.nil ∷ [], record sample_vm { stack = mem }))
pop_values-push_values_example =
    pop_values-push_values sample_floats sample_vm 0 (Value.int 1 ∷ Value.nil ∷ [])
      sample_stack-IsValid refl (omega arith)

abbrev sample_tuple : Values ℕ
sample_tuple = Value.item (Value.int 4) (Value.item Value.nil Value.end)

-- An iterator in register 2, walked by one into register 3.
abbrev iterating_vm : Vm ℕ
iterating_vm = record sample_vm {
  registers = Value.absent ∷ Value.absent ∷ Value.iterator 0 ∷ Value.absent ∷ [];
  heap = record { index = 0; length = 2; iterable = Value.tuple sample_tuple } ∷ [];
}

abbrev walk_instruction : Instruction
walk_instruction = record {
  opcode = nord.Machine.op_deref;
  byte0 = 3;
  byte1 = 2;
  byte2 = 1;
  byte3 = 0;
}

iterating_vm-IsAt : IsAt walk_instruction 0 sample_tuple 0 iterating_vm
iterating_vm-IsAt = record {
  by_one = refl;
  apart = omega arith;
  target = omega arith;
  register = refl;
  allocated = omega arith;
  at = refl;
}

walk-to_list_example :
    (last : Vm ℕ) × (walk 2 walk_instruction iterating_vm ≡ ok (Value.int 4 ∷ Value.nil ∷ [], last))
    × (exec_deref walk_instruction last
        ≡ ok (record last { registers = set last.registers 3 Value.nil }))
walk-to_list_example = walk-to_list walk_instruction 0 sample_tuple iterating_vm iterating_vm-IsAt
