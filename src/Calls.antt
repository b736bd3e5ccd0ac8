-- ===== src/Calls.antt =====
-- src/machine/vm.c: `instruction_call`, `OP_RETURN` and `OP_IMPORT`.
-- Reading, compiling and running an imported file is the environment's.
pub mod Locals
pub mod RoundTrip
pub mod Nested
use nord.Prelude.{
  ℕ, zero, suc, ◌+◌, ◌-◌, ◌*◌, ◌/◌, ◌%◌, ◌^◌, Bool, true, false, ◌&&◌, ◌||◌, not, Option, none,
  some, List, [], ◌∷◌, ◌++◌, ltb, leb, ◌==◌, if◌then◌else◌, length, get_elem?, set, replicate, drop,
  str_eq,
}
use nord.Prelude.Int.{ℤ, pos, negsuc}
use nord.Prelude.Result.{
  Result, ok, fault, out_of_bounds, indeterminate, assertion, null_pointer, out_of_fuel, ◌>>=◌,
}
use nord.Memory.{memory_set, memory_get}
use nord.Floats.{Floats}
use nord.Word.{wadd, wsub, wmul, wneg, wmod, widen16, widen32}
use nord.Symbol.{symbol_map_set}
use nord.Value.{
  Value, Values, ValueType, Address, FunctionDef, Iterator, is_collection, to_list, same_type,
  module_create,
}
use nord.Operand.{
  bit, type_read, number_of, string_of, is_numberish, is_float, is_string, both, either,
  num_or_float, num_or_float_or_bool, nonzero,
}
use nord.Machine.{
  Opcode, Instruction, Vm, Frame, found, vm_stack_push, vm_stack_pop, vm_cstack_push, vm_cstack_pop,
  get_register, set_register, pair1, pair2,
}
use nord.Builtins.{call_builtin}

-- What an instruction needs of the world outside.
pub record Environment : Type 0 where
  pub now : ℕ
  pub run_module : List ℕ → Result ℕ

-- `while (fn->locals[count] != 0) count += 1`
abbrev pub count_locals : List ℕ → Result ℕ
count_locals [] = fault out_of_bounds
count_locals (reg ∷ regs) =
    let rest = count_locals regs >>= (λ n. ok (suc n)) in if reg == 0 then ok 0 else rest

-- A `NULL` list of locals is read through.
abbrev pub locals_of : FunctionDef → Result (List ℕ)
locals_of def = elim def.locals [ none ↦ fault null_pointer | some locals ↦ ok locals ]

module _ {R : Type 0} where
  abbrev pub stored : List (Value R) → ℕ → Value R → Result (List (Value R))
  stored save i v = if leb (length save) i then fault out_of_bounds else ok (set save i v)

  -- The saving loop of `instruction_call`, over the registers from index `i` on.
  unfoldable pub save_locals :
      List ℕ → ℕ → List (Value R) → List (Value R) → Result (List (Value R))
  save_locals [] i registers save = fault out_of_bounds
  save_locals (reg ∷ regs) i registers save =
      let rest =
        found (get_elem? registers reg)
        >>= (λ v. stored save i v >>= λ save'. save_locals regs (i + 1) registers save') in
      if reg == 0 then ok save else rest

  abbrev pub function_of : Value R → Result FunctionDef
  function_of (Value.function def) = ok def
  function_of Value.indeterminate = fault indeterminate
  function_of _ = fault assertion

  -- `if (vm->frame.type == VAL_FUNCTION) vm_cstack_push(vm, vm->frame)`
  abbrev pub push_frame : Vm R → Option (Frame R) → Result (Vm R)
  push_frame vm none = ok vm
  push_frame vm (some frame) = vm_cstack_push vm (some frame)

  -- What follows the save of the caller's frame.
  unfoldable pub enter : Vm R → FunctionDef → Result (Vm R)
  unfolding save_locals
  enter vm def = locals_of def >>= λ locals. count_locals locals >>= λ count.
      save_locals (drop def.nargs locals) def.nargs vm.registers
        (replicate count Value.indeterminate)
      >>= λ save. ok (record vm {
        frame = some (record {
          def = def;
          return_address = record { region = vm.region; offset = vm.pc };
          save = save;
        });
        region = def.address.region;
        pc = def.address.offset;
      })

  unfoldable pub instruction_call : Instruction → Vm R → Result (Vm R)
  instruction_call i vm = memory_get Value.absent vm.memory (pos (pair2 i)) >>= λ v.
      function_of v >>= λ def. push_frame vm vm.frame >>= λ m. enter m def

  -- The restoring loop of `OP_RETURN`, which starts at the first of the locals.
  unfoldable pub restore_locals : List ℕ → List (Value R) → Vm R → Result (Vm R)
  restore_locals [] save vm = fault out_of_bounds
  restore_locals (reg ∷ regs) [] vm = if reg == 0 then ok vm else fault out_of_bounds
  restore_locals (reg ∷ regs) (v ∷ save) vm =
      let rest = set_register vm reg v >>= (λ m. restore_locals regs save m) in
      if reg == 0 then ok vm else rest

  -- `if (vm->csp > 0) vm->frame = vm_cstack_pop(vm)`
  abbrev pub pop_frame : Vm R → ℤ → Result (Vm R)
  pop_frame vm (pos (suc n)) = vm_cstack_pop vm >>= λ p. ok (record (p.1) { frame = p.0 })
  pop_frame vm _ = ok vm

  abbrev pub frame_of : Option (Frame R) → Result (Frame R)
  frame_of none = fault null_pointer
  frame_of (some frame) = ok frame

  -- `OP_RETURN` with its frame and the value that is returned.
  unfoldable pub leave : Vm R → Value R → Frame R → Result (Vm R)
  leave vm result frame =
      vm_stack_push
        (record vm { region = frame.return_address.region; pc = frame.return_address.offset })
        result
      >>= λ pushed. locals_of frame.def >>= λ locals.
          restore_locals locals frame.save pushed >>= λ m.
          pop_frame (record m { frame = none }) m.csp

  unfoldable pub exec_return : Instruction → Vm R → Result (Vm R)
  exec_return i vm =
      frame_of vm.frame >>= λ frame. get_register vm (pair2 i) >>= λ result. leave vm result frame

  -- `assert(ret.type == VAL_STRING)` and the text
  abbrev pub text_of : Value R → Result (List ℕ)
  text_of (Value.str s) = ok s
  text_of Value.indeterminate = fault indeterminate
  text_of _ = fault assertion

  unfoldable pub exec_import : Environment → Instruction → Vm R → Result (Vm R)
  unfolding module_create
  exec_import env i vm = memory_get Value.absent vm.memory (pos (pair2 i)) >>= λ v.
      text_of v >>= λ name. env.run_module name >>= λ module_vm.
      memory_set Value.absent vm.memory (pos (pair2 i)) (module_create module_vm) >>= λ m.
      symbol_map_set vm.symbols (record {
        name = some name;
        type = nord.Symbol.sym_module;
        location = record { kind = nord.Symbol.loc_memory; address = pair1 i };
      })
      >>= λ symbols. ok (record vm { memory = m; symbols = symbols })
