-- ===== src/Execute.antt =====
-- src/machine/vm.c: `vm_execute`, its dispatch and its loop. `SETINBOUND` and `GETOUTBOUND`, which
-- bytecode.h does not declare, have no case, and `OP_RESTORE` has none in the source.
pub mod Fuel
use nord.Prelude.{
  ℕ, zero, suc, ◌+◌, ◌-◌, ◌*◌, ◌/◌, ◌%◌, ◌^◌, Bool, true, false, ◌&&◌, ◌||◌, not, Option, none,
  some, List, [], ◌∷◌, ◌++◌, ltb, leb, ◌==◌, if◌then◌else◌, length, get_elem?, set, replicate, drop,
  str_eq,
}
use nord.Prelude.Int.{ℤ, pos, negsuc}
use nord.Prelude.Result.{
  Result, ok, fault, out_of_bounds, indeterminate, assertion, null_pointer, out_of_fuel, ◌>>=◌,
}
use nord.Memory.{memory_set, memory_get}
use nord.Floats.{Floats}
use nord.Word.{wadd, wsub, wmul, wneg, wmod, widen16, widen32}
use nord.Symbol.{symbol_map_set}
use nord.Value.{
  Value, Values, ValueType, Address, FunctionDef, Iterator, is_collection, to_list, same_type,
  module_create,
}
use nord.Operand.{
  bit, type_read, number_of, string_of, is_numberish, is_float, is_string, both, either,
  num_or_float, num_or_float_or_bool, nonzero,
}
use nord.Machine.{
  Opcode, Instruction, Vm, Frame, found, vm_stack_push, vm_stack_pop, vm_cstack_push, vm_cstack_pop,
  get_register, set_register, pair1, pair2,
}
use nord.Builtins.{call_builtin}
use nord.Transfer.{
  exec_nil, exec_load, exec_loadv, exec_store, exec_move, exec_push, exec_pop, exec_jmp, exec_deref,
}
use nord.Operators.{
  with_operands, with_comparison, modulo_values, exec_negate, add_values, subtract_values,
  multiply_values, divide_values, and_values, or_values, exec_not, equal_values, lessthan_values,
}
use nord.Calls.{Environment, text_of, instruction_call, exec_return, exec_import}

module _ (F : Floats) where
  open F use {Real}

  unfoldable pub instruction_call_builtin : Environment → Instruction → Vm Real → Result (Vm Real)
  instruction_call_builtin env i vm = memory_get Value.absent vm.memory (pos (pair2 i)) >>= λ v.
      text_of v >>= λ name. call_builtin F env.now name vm

  -- The body of the loop, behind `vm->pc++`.
  unfoldable pub dispatch : Environment → Instruction → Opcode → Vm Real → Result (Vm Real)
  dispatch env i nord.Machine.op_nil vm = exec_nil i vm
  dispatch env i nord.Machine.op_load vm = exec_load i vm
  dispatch env i nord.Machine.op_loadv vm = exec_loadv i vm
  dispatch env i nord.Machine.op_store vm = exec_store i vm
  dispatch env i nord.Machine.op_move vm = exec_move i vm
  dispatch env i nord.Machine.op_push vm = exec_push i vm
  dispatch env i nord.Machine.op_pop vm = exec_pop i vm
  dispatch env i nord.Machine.op_restore vm = ok vm
  dispatch env i nord.Machine.op_jmp vm = exec_jmp i vm
  dispatch env i nord.Machine.op_add vm = with_operands (add_values F) i vm
  dispatch env i nord.Machine.op_subtract vm = with_operands (subtract_values F) i vm
  dispatch env i nord.Machine.op_multiply vm = with_operands (multiply_values F) i vm
  dispatch env i nord.Machine.op_divide vm = with_operands (divide_values F) i vm
  dispatch env i nord.Machine.op_negate vm = exec_negate i vm
  dispatch env i nord.Machine.op_modulo vm = with_operands modulo_values i vm
  dispatch env i nord.Machine.op_and vm = with_operands (and_values F) i vm
  dispatch env i nord.Machine.op_or vm = with_operands (or_values F) i vm
  dispatch env i nord.Machine.op_not vm = exec_not F i vm
  dispatch env i nord.Machine.op_equal vm = with_comparison (equal_values F) i vm
  dispatch env i nord.Machine.op_lessthan vm = with_comparison (lessthan_values F) i vm
  dispatch env i nord.Machine.op_deref vm = exec_deref i vm
  dispatch env i nord.Machine.op_call vm = instruction_call i vm
  dispatch env i nord.Machine.op_call_dynamic vm = instruction_call_builtin env i vm
  dispatch env i nord.Machine.op_return vm = exec_return i vm
  dispatch env i nord.Machine.op_import vm = exec_import env i vm

  -- One round with what stands at the counter: none when it has passed the end of the block.
  abbrev pub run_at : Environment → Vm Real → Option Instruction → Result (Option (Vm Real))
  run_at env vm none = ok none
  run_at env vm (some i) =
      dispatch env i i.opcode (record vm { pc = vm.pc + 1 }) >>= λ next. ok (some next)

  unfoldable pub step : Environment → Vm Real → Result (Option (Vm Real))
  step env vm =
      found (get_elem? vm.regions vm.region) >>= λ block. run_at env vm (get_elem? block vm.pc)

  -- The loop, for at most `n` rounds.
  unfoldable pub vm_execute : Environment → ℕ → Vm Real → Result (Vm Real)
  vm_execute env zero vm = fault out_of_fuel
  vm_execute env (suc n) vm =
      step env vm >>= λ r. elim r [ none ↦ ok vm | some next ↦ vm_execute env n next ]
