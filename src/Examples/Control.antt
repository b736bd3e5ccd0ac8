-- ===== src/Examples/Control.antt =====
-- Witnesses of the theorems about the loop of the virtual machine, comparisons and calls.
use nord.Prelude.{
  ℕ, zero, suc, ◌+◌, ◌≡◌, ◌≢◌, refl, true, false, none, some, [], ◌∷◌, arith, get_elem?, set,
}
use nord.Prelude.Int.{pos}
use nord.Prelude.Result.{ok}
use nord.Memory.{memory_get}
use nord.Word.{slt}
use nord.Value.{Value, FunctionDef}
use nord.Machine.{Vm, Instruction, Opcode, vm_stack_pop}
use nord.Operators.{lessthan_values}
use nord.Calls.{instruction_call, exec_return}
use nord.Calls.Locals.{Lists, stop, more, Distinct, nothing, fresh}
use nord.Calls.RoundTrip.{saved_frame, instruction_call_lem, exec_return-instruction_call}
use nord.Execute.Fuel.{Reaches}
use nord.Codegen.Comparison.{lessthan, IsPlaced, comparison_code-Reaches}
use nord.Examples.Machine.{
  sample_floats, sample_vm, sample_environment, compare_code, sample_stack-IsValid,
}

pub at_zero : memory_get Value.absent sample_vm.memory (pos 0) ≡ ok (Value.boolean false true)
unfolding memory_get
at_zero = refl

pub at_one : memory_get Value.absent sample_vm.memory (pos 1) ≡ ok (Value.boolean true true)
unfolding memory_get
at_one = refl

placed : IsPlaced sample_vm nord.Machine.op_lessthan 1 1 2 3
placed = record {
  block = compare_code;
  running = refl;
  first = refl;
  second = refl;
  third = refl;
  cell0 = at_zero;
  cell1 = at_one;
}

less : lessthan_values sample_floats (Value.int 3) (Value.int 5) ≡ ok true
unfolding lessthan_values slt
less = refl

comparison_code-Reaches_example :
    Reaches sample_floats sample_environment sample_vm (record sample_vm {
      pc = 0 + 3;
      registers = set sample_vm.registers 1 (Value.boolean true true);
    })
comparison_code-Reaches_example =
    comparison_code-Reaches sample_floats sample_environment sample_vm nord.Machine.op_lessthan
      (lessthan_values sample_floats) 1 1 2 3 (Value.int 3) (Value.int 5) true placed lessthan
      (omega arith, omega arith, refl) (omega arith, omega arith, omega arith)
      (omega arith, omega arith) refl refl less

-- A function of one argument, in register 1, and one more local, in register 2.
abbrev pub sample_def : FunctionDef
sample_def = record {
  name = 102 ∷ [];
  address = record { region = 0; offset = 2 };
  nargs = 1;
  locals = some (1 ∷ 2 ∷ 0 ∷ []);
  low_reg = 1;
}

abbrev pub caller : Vm ℕ
caller = record sample_vm {
  memory = record { capacity = 1; contents = Value.function sample_def ∷ [] };
}

-- The call takes the function from cell 0; the return gives register 3.
abbrev pub call_instruction : Instruction
call_instruction = record {
  opcode = nord.Machine.op_call;
  byte0 = 0;
  byte1 = 0;
  byte2 = 0;
  byte3 = 0;
}

abbrev pub return_instruction : Instruction
return_instruction = record {
  opcode = nord.Machine.op_return;
  byte0 = 0;
  byte1 = 0;
  byte2 = 3;
  byte3 = 0;
}

abbrev called : Vm ℕ
called = record caller {
  frame = some (saved_frame caller sample_def (1 ∷ 2 ∷ []));
  region = 0;
  pc = 2;
}

-- The body has written to the local.
abbrev returning : Vm ℕ
returning = record called { registers = set called.registers 2 Value.nil }

pub at_call : memory_get Value.absent caller.memory (pos 0) ≡ ok (Value.function sample_def)
unfolding memory_get
at_call = refl

pub sample_locals : Lists 4 (1 ∷ 2 ∷ 0 ∷ []) (1 ∷ 2 ∷ [])
sample_locals = more (omega arith) (omega arith) (more (omega arith) (omega arith) stop)

sample_locals-Distinct : Distinct (1 ∷ 2 ∷ [])
sample_locals-Distinct = fresh not_one (fresh (λ k. not_two k) nothing)
  where
    not_one : (k : ℕ) → get_elem? {A = ℕ} (2 ∷ []) k ≢ some 1
    not_one zero h = ground arith
    not_one (suc k) h = cc

    not_two : (k : ℕ) → get_elem? {A = ℕ} [] k ≢ some 2
    not_two k h = cc

not_listed : (k : ℕ) → get_elem? {A = ℕ} (1 ∷ 2 ∷ []) k ≢ some 3
not_listed zero h = ground arith
not_listed (suc zero) h = ground arith
not_listed (suc (suc k)) h = cc

instruction_call_lem_example : instruction_call call_instruction caller ≡ ok called
instruction_call_lem_example =
    instruction_call_lem caller call_instruction sample_def (1 ∷ 2 ∷ 0 ∷ []) (1 ∷ 2 ∷ []) at_call
      refl sample_locals (omega arith) refl

called_run : instruction_call call_instruction caller ≡ ok called
called_run =
    instruction_call_lem caller call_instruction sample_def (1 ∷ 2 ∷ 0 ∷ []) (1 ∷ 2 ∷ []) at_call
      refl sample_locals (omega arith) refl

exec_return-instruction_call_example :
    (last : Vm ℕ) × (exec_return return_instruction returning ≡ ok last)
    × ((last.region ≡ 0) × (last.pc ≡ 0) × (last.frame ≡ none))
    × (vm_stack_pop last ≡ ok (Value.int 5, record last { sp = pos 0 }))
    × (get_elem? last.registers 2 ≡ some (Value.int 3))
    × (get_elem? last.registers 3 ≡ some (Value.int 5))
exec_return-instruction_call_example =
    exec_return-instruction_call caller call_instruction sample_def (1 ∷ 2 ∷ 0 ∷ []) (1 ∷ 2 ∷ [])
      at_call refl sample_locals (omega arith) called returning return_instruction (Value.int 5) 0 0
      2 3 refl called_run refl refl refl sample_stack-IsValid refl (omega arith) (omega arith) refl
      sample_locals-Distinct refl (omega arith) not_listed
