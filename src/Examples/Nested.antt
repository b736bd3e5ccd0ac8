-- ===== src/Examples/Nested.antt =====
-- A witness of the theorem about a call from within a function.
use nord.Prelude.{ℕ, ◌≡◌, refl, some, [], ◌∷◌, arith, set}
use nord.Prelude.Int.{pos, incr}
use nord.Prelude.Result.{ok}
use nord.Memory.{memory_get, memory_set, last_index, write}
use nord.Memory.Refinement.{IsValid}
use nord.Value.{Value}
use nord.Machine.{Frame, Vm, vm_stack_pop, vm_cstack_push}
use nord.Calls.{instruction_call, exec_return, enter, save_locals}
use nord.Calls.RoundTrip.{saved_frame}
use nord.Calls.Nested.{exec_return-nested}
use nord.Examples.Machine.{sample_stack-IsValid}
use nord.Examples.Control.{
  caller, sample_def, call_instruction, return_instruction, at_call, sample_locals,
}

abbrev outer_frame : Frame ℕ
outer_frame = record {
  def = sample_def;
  return_address = record { region = 0; offset = 1 };
  save = [];
}

-- The caller runs in a function itself.
abbrev inner_caller : Vm ℕ
inner_caller = record caller { frame = some outer_frame }

abbrev inner_called : Vm ℕ
inner_called = record inner_caller {
  call_stack = record caller.call_stack {
    contents = set caller.call_stack.contents 0 (some outer_frame);
  };
  csp = pos 1;
  frame = some (saved_frame inner_caller sample_def (1 ∷ 2 ∷ []));
  region = 0;
  pc = 2;
}

inner_run : instruction_call call_instruction inner_caller ≡ ok inner_called
unfolding instruction_call enter save_locals vm_cstack_push memory_get memory_set last_index write
    incr
inner_run = refl

inner_call_stack-IsValid : IsValid inner_caller.call_stack
inner_call_stack-IsValid = record { allocated = refl; nonempty = omega arith; small = omega arith }

exec_return-nested_example :
    (last : Vm ℕ) × (exec_return return_instruction inner_called ≡ ok last)
    × ((last.region ≡ 0) × (last.pc ≡ 0) × (last.frame ≡ some outer_frame) × (last.csp ≡ pos 0))
    × (vm_stack_pop last ≡ ok (Value.int 5, record last { sp = pos 0 }))
exec_return-nested_example =
    exec_return-nested inner_caller call_instruction sample_def (1 ∷ 2 ∷ 0 ∷ []) (1 ∷ 2 ∷ [])
      at_call refl sample_locals (omega arith) outer_frame inner_called inner_called
      return_instruction (Value.int 5) 0 0 refl inner_call_stack-IsValid refl (omega arith)
      (omega arith) inner_run refl refl refl refl refl sample_stack-IsValid refl (omega arith)
      (omega arith)
