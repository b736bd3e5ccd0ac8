-- ===== src/Calls/RoundTrip.antt =====
-- src/machine/vm.c: a call of a function and the return from it, whatever its body did in between.
use nord.Prelude.{
  ℕ, ◌+◌, ◌*◌, ◌^◌, ◌≤◌, ◌<◌, ◌≡◌, ◌≢◌, refl, ap, sym, ◌∙◌, none, some, List, arith, length,
  get_elem?, get_or, replicate, drop, length-replicate, length-drop, get_elem?-drop,
  get_elem?-get_or,
}
use mathlib.Core.Path.{subst}
use nord.Prelude.Int.{pos}
use nord.Prelude.Result.{ok, ◌>>=◌}
use nord.Memory.{memory_get}
use nord.Memory.Refinement.{IsValid}
use nord.Value.{Value, FunctionDef}
use nord.Machine.{Frame, Instruction, Vm, pair2, get_register, found, vm_stack_pop}
use nord.Machine.Stacks.{vm_stack_push_lem, vm_stack_pop_lem, get_stored, Stores-IsValid}
use nord.Calls.{instruction_call, exec_return, leave, frame_of, enter, function_of, push_frame}
use nord.Calls.Locals.{
  Lists, Distinct, count_locals-Lists, drop-Lists, saved, save_locals-saved, length-saved, saved_at,
  restored, restore_locals-restored, restored_at, restored_other,
}

module _ {R : Type 0} where
  -- The frame that a call builds.
  abbrev pub saved_frame : Vm R → FunctionDef → List ℕ → Frame R
  saved_frame vm def ls = record {
    def = def;
    return_address = record { region = vm.region; offset = vm.pc };
    save =
        saved (drop def.nargs ls) def.nargs vm.registers
          (replicate (length ls) Value.indeterminate);
  }

  -- A return through a frame, with no frame below it.
  leave_lem :
      (now : Vm R) (frame : Frame R) (locals ls : List ℕ) (result : Value R) (n : ℕ)
      → frame.def.locals ≡ some locals
      → Lists (length now.registers) locals ls
      → length ls ≤ length frame.save
      → IsValid now.stack
      → now.sp ≡ pos n
      → n ≢ now.stack.capacity * 2
      → now.stack.capacity * 2 + n * 2 < 2 ^ 30
      → now.csp ≡ pos 0
      → (last : Vm R) × (leave now result frame ≡ ok last)
        × ((last.region ≡ frame.return_address.region)
            × (last.pc ≡ frame.return_address.offset)
            × (last.frame ≡ none))
        × (vm_stack_pop last ≡ ok (result, record last { sp = pos n }))
        × (last.registers ≡ restored ls frame.save now.registers)
  unfolding leave
  leave_lem now frame locals ls result n has lists long valid sp ne bound csp =
      let there = record now {
        region = frame.return_address.region;
        pc = frame.return_address.offset;
      } in
      let (mem, run, s) = vm_stack_push_lem there n result valid sp ne in
      let pushed = record there { stack = mem; sp = pos (n + 1) } in
      let last = record pushed { registers = restored ls frame.save now.registers; frame = none } in
      (
        last,
        rw (run, has, restore_locals-restored frame.save pushed lists (omega arith) long, csp),
        (refl, refl, refl),
        vm_stack_pop_lem last n result refl (
            get_stored Value.absent now.stack mem n result
              (Stores-IsValid Value.absent now.stack mem n result valid s bound) s),
        refl,
      )

  pub exec_return-leave :
      (now : Vm R) (j : Instruction) (frame : Frame R) (result : Value R)
      → now.frame ≡ some frame
      → get_elem? now.registers (pair2 j) ≡ some result
      → exec_return j now ≡ leave now result frame
  unfolding exec_return get_register
  exec_return-leave now j frame result p q =
      ap (λ m. frame_of m >>= λ f. found (get_elem? now.registers (pair2 j)) >>= λ v. leave now v f)
        p
      ∙ ap (λ m. found m >>= λ v. leave now v frame) q

  pub ok_injective : (a b : Vm R) → ok a ≡ ok b → a ≡ b
  ok_injective a b h = cc

  pub enter_lem :
      (vm : Vm R) (def : FunctionDef) (locals ls : List ℕ)
      → def.locals ≡ some locals
      → Lists (length vm.registers) locals ls
      → def.nargs ≤ length ls
      → enter vm def
        ≡ ok (record vm {
          frame = some (saved_frame vm def ls);
          region = def.address.region;
          pc = def.address.offset;
        })
  unfolding enter
  enter_lem vm def locals ls has lists args = rw (
    has,
    count_locals-Lists lists,
    save_locals-saved vm.registers def.nargs (replicate (length ls) Value.indeterminate)
        (drop-Lists def.nargs args lists)
        (omega (
          arith,
          length-drop def.nargs ls args,
          length-replicate {A = Value R} (length ls) Value.indeterminate,
        )),
  )

  module _ (vm : Vm R) (i : Instruction) (def : FunctionDef) (locals ls : List ℕ)
      (cell : memory_get Value.absent vm.memory (pos (pair2 i)) ≡ ok (Value.function def))
      (has : def.locals ≡ some locals) (lists : Lists (length vm.registers) locals ls)
      (args : def.nargs ≤ length ls) where
    -- A call from outside every function of a function with a list of locals, its arguments first,
    -- runs on at the function's address. The new frame holds the place behind the call and the
    -- locals that are no arguments; no register changes.
    pub instruction_call_lem :
        vm.frame ≡ none
        → instruction_call i vm
          ≡ ok (record vm {
            frame = some (saved_frame vm def ls);
            region = def.address.region;
            pc = def.address.offset;
          })
    unfolding instruction_call
    instruction_call_lem outside =
        ap (λ r. r >>= λ v. function_of v >>= λ d. push_frame vm vm.frame >>= λ m. enter m d) cell
        ∙ ap (λ f. push_frame vm f >>= λ m. enter m def) outside
        ∙ enter_lem vm def locals ls has lists args

    pub length-save : length (saved_frame vm def ls).save ≡ length ls
    length-save =
        length-saved (drop def.nargs ls) def.nargs vm.registers _
        ∙ length-replicate {A = Value R} (length ls) Value.indeterminate

    -- What the frame holds for a local that is no argument.
    kept :
        (k local : ℕ)
        → get_elem? ls (def.nargs + k) ≡ some local
        → get_elem? (saved_frame vm def ls).save (def.nargs + k)
          ≡ some (get_or vm.registers local Value.absent)
    kept k local at =
        saved_at (drop def.nargs ls) def.nargs k vm.registers _ local
          (omega (
            arith,
            length-drop def.nargs ls args,
            length-replicate {A = Value R} (length ls) Value.indeterminate,
          ))
          (get_elem?-drop def.nargs k ls ∙ at)

    -- After a call from outside every function, whatever the machine did since, as long as the frame
    -- is that of the call and the stack has room: a return succeeds. It goes on behind the call, leaves
    -- every function, and leaves the returned value on top of the stack. A local that is no argument has
    -- the value from before the call, and a register that is no local keeps the value it has.
    pub exec_return-instruction_call :
        (called now : Vm R) (j : Instruction) (result : Value R) (n k local other : ℕ)
        → vm.frame ≡ none
        → instruction_call i vm ≡ ok called
        → now.frame ≡ called.frame
        → length now.registers ≡ length vm.registers
        → get_elem? now.registers (pair2 j) ≡ some result
        → IsValid now.stack
        → now.sp ≡ pos n
        → n ≢ now.stack.capacity * 2
        → now.stack.capacity * 2 + n * 2 < 2 ^ 30
        → now.csp ≡ pos 0
        → Distinct ls
        → get_elem? ls (def.nargs + k) ≡ some local
        → local < length vm.registers
        → ((m : ℕ) → get_elem? ls m ≢ some other)
        → (last : Vm R) × (exec_return j now ≡ ok last)
          × ((last.region ≡ vm.region) × (last.pc ≡ vm.pc) × (last.frame ≡ none))
          × (vm_stack_pop last ≡ ok (result, record last { sp = pos n }))
          × (get_elem? last.registers local ≡ get_elem? vm.registers local)
          × (get_elem? last.registers other ≡ get_elem? now.registers other)
    exec_return-instruction_call called now j result n k local other outside call framed len res
          valid sp ne bound csp distinct at inside unlisted =
        let frame = saved_frame vm def ls in
        let same = ok_injective _ called (sym (instruction_call_lem outside) ∙ call) in
        let (last, run, back, top, regs) =
          leave_lem now frame locals ls result n has
            (subst (λ m. Lists m locals ls) (sym len) lists) (omega (arith, length-save)) valid sp
            ne bound csp in
        (
          last,
          exec_return-leave now j frame result (framed ∙ sym (ap (λ m. m.frame) same)) res ∙ run,
          back,
          top,
          rw regs (
                restored_at ls frame.save now.registers (def.nargs + k) local _ distinct
                  (omega arith) at (kept k local at))
              ∙ sym (get_elem?-get_or vm.registers local Value.absent inside),
          rw regs (restored_other ls frame.save now.registers other unlisted),
        )
