-- ===== src/Calls/Nested.antt =====
-- src/machine/vm.c: a call from within a function, and the return to it.
use nord.Prelude.{
  ℕ, suc, ◌+◌, ◌*◌, ◌^◌, ◌≤◌, ◌<◌, ◌≡◌, ◌≢◌, refl, ap, sym, ◌∙◌, none, some, Option, List, arith,
  length, get_elem?,
}
use mathlib.Core.Path.{subst}
use nord.Prelude.Int.{pos, incr}
use nord.Prelude.Result.{ok, ◌>>=◌}
use nord.Memory.{Memory, memory_get}
use nord.Memory.Refinement.{IsValid, memory_set-Stores}
use nord.Value.{Value, FunctionDef}
use nord.Machine.{Frame, Instruction, Vm, pair2, vm_stack_pop, vm_cstack_push, vm_cstack_pop}
use nord.Machine.Stacks.{vm_stack_push_lem, vm_stack_pop_lem, get_stored, Stores-IsValid, decr_incr}
use nord.Calls.{instruction_call, exec_return, leave, enter, function_of, push_frame, pop_frame}
use nord.Calls.Locals.{Lists, restored, restore_locals-restored}
use nord.Calls.RoundTrip.{saved_frame, enter_lem, exec_return-leave, ok_injective, length-save}

module _ {R : Type 0} where
  vm_cstack_push_lem :
      (vm : Vm R) (c : ℕ) (outer : Frame R)
      → IsValid vm.call_stack
      → vm.csp ≡ pos c
      → c ≢ vm.call_stack.capacity * 2
      → vm.call_stack.capacity * 2 + c * 2 < 2 ^ 30
      → (mem : Memory (Option (Frame R))) × (vm_cstack_push vm (some outer)
          ≡ ok (record vm { call_stack = mem; csp = pos (c + 1) }))
        × (memory_get none mem (pos c) ≡ ok (some outer))
  unfolding vm_cstack_push incr
  vm_cstack_push_lem vm c outer valid csp ne bound =
      let (mem, run, s) = memory_set-Stores none vm.call_stack c (some outer) valid ne in
      (
        mem,
        rw (csp, run),
        get_stored none vm.call_stack mem c (some outer)
            (Stores-IsValid none vm.call_stack mem c (some outer) valid s bound) s,
      )

  vm_cstack_pop_lem :
      (vm : Vm R) (c : ℕ) (outer : Frame R)
      → memory_get none vm.call_stack (pos c) ≡ ok (some outer)
      → vm.csp ≡ pos (c + 1)
      → vm_cstack_pop vm ≡ ok (some outer, record vm { csp = pos c })
  unfolding vm_cstack_pop
  vm_cstack_pop_lem vm c outer top csp = rw (csp, decr_incr c, top)

  pop_frame_lem :
      (vm : Vm R) (c : ℕ) (outer : Frame R)
      → memory_get none vm.call_stack (pos c) ≡ ok (some outer)
      → vm.csp ≡ pos (c + 1)
      → pop_frame vm vm.csp ≡ ok (record vm { csp = pos c; frame = some outer })
  pop_frame_lem vm c outer top csp =
      let over : pos (c + 1) ≡ pos (suc c) = ap pos (omega arith) in
      ap (pop_frame vm) (csp ∙ over)
      ∙ ap (λ r. r >>= λ p. ok (record (p.1) { frame = p.0 }))
          (vm_cstack_pop_lem vm c outer top csp)

  -- A return through a frame, with the frame of the caller on the call stack.
  leave_to_caller :
      (now : Vm R) (frame outer : Frame R) (locals ls : List ℕ) (result : Value R) (n c : ℕ)
      → frame.def.locals ≡ some locals
      → Lists (length now.registers) locals ls
      → length ls ≤ length frame.save
      → IsValid now.stack
      → now.sp ≡ pos n
      → n ≢ now.stack.capacity * 2
      → now.stack.capacity * 2 + n * 2 < 2 ^ 30
      → memory_get none now.call_stack (pos c) ≡ ok (some outer)
      → now.csp ≡ pos (c + 1)
      → (last : Vm R) × (leave now result frame ≡ ok last)
        × ((last.region ≡ frame.return_address.region)
            × (last.pc ≡ frame.return_address.offset)
            × (last.frame ≡ some outer)
            × (last.csp ≡ pos c))
        × (vm_stack_pop last ≡ ok (result, record last { sp = pos n }))
  unfolding leave
  leave_to_caller now frame outer locals ls result n c has lists long valid sp ne bound top csp =
      let there = record now {
        region = frame.return_address.region;
        pc = frame.return_address.offset;
      } in
      let (mem, run, s) = vm_stack_push_lem there n result valid sp ne in
      let pushed = record there { stack = mem; sp = pos (n + 1) } in
      let back = record pushed { registers = restored ls frame.save now.registers; frame = none } in
      let last = record back { csp = pos c; frame = some outer } in
      (
        last,
        rw (run, has, restore_locals-restored frame.save pushed lists (omega arith) long)
            (pop_frame_lem back c outer top csp),
        (refl, refl, refl, refl),
        vm_stack_pop_lem last n result refl (
            get_stored Value.absent now.stack mem n result
              (Stores-IsValid Value.absent now.stack mem n result valid s bound) s),
      )

  module _ (vm : Vm R) (i : Instruction) (def : FunctionDef) (locals ls : List ℕ)
      (cell : memory_get Value.absent vm.memory (pos (pair2 i)) ≡ ok (Value.function def))
      (has : def.locals ≡ some locals) (lists : Lists (length vm.registers) locals ls)
      (args : def.nargs ≤ length ls) where
    -- A call from within a function, with room on the call stack, succeeds.
    nested_call :
        (outer : Frame R) (c : ℕ)
        → vm.frame ≡ some outer
        → IsValid vm.call_stack
        → vm.csp ≡ pos c
        → c ≢ vm.call_stack.capacity * 2
        → vm.call_stack.capacity * 2 + c * 2 < 2 ^ 30
        → (called : Vm R) × (instruction_call i vm ≡ ok called)
          × (called.frame ≡ some (saved_frame vm def ls))
          × (memory_get none called.call_stack (pos c) ≡ ok (some outer))
          × (called.csp ≡ pos (c + 1))
    unfolding instruction_call
    nested_call outer c inner valid csp ne bound =
        let (mem, run, top) = vm_cstack_push_lem vm c outer valid csp ne bound in
        let m = record vm { call_stack = mem; csp = pos (c + 1) } in
        (
          record m {
            frame = some (saved_frame vm def ls);
            region = def.address.region;
            pc = def.address.offset;
          },
          ap (λ r. r >>= λ v. function_of v >>= λ d. push_frame vm vm.frame >>= λ m. enter m d) cell
              ∙ ap (λ f. push_frame vm f >>= λ m. enter m def) inner
              ∙ ap (λ r. r >>= λ m. enter m def) run
              ∙ enter_lem m def locals ls has lists args,
          refl,
          top,
          refl,
        )

    -- After a call from within a function, whatever the machine did since, as long as the frame, the
    -- call stack and its height are those of the call and the stack has room: a return succeeds. It
    -- goes on behind the call, in the frame of the caller, with the call stack at its height from
    -- before the call and the returned value on top of the stack.
    pub exec_return-nested :
        (outer : Frame R) (called now : Vm R) (j : Instruction) (result : Value R) (n c : ℕ)
        → vm.frame ≡ some outer
        → IsValid vm.call_stack
        → vm.csp ≡ pos c
        → c ≢ vm.call_stack.capacity * 2
        → vm.call_stack.capacity * 2 + c * 2 < 2 ^ 30
        → instruction_call i vm ≡ ok called
        → now.frame ≡ called.frame
        → now.call_stack ≡ called.call_stack
        → now.csp ≡ called.csp
        → length now.registers ≡ length vm.registers
        → get_elem? now.registers (pair2 j) ≡ some result
        → IsValid now.stack
        → now.sp ≡ pos n
        → n ≢ now.stack.capacity * 2
        → now.stack.capacity * 2 + n * 2 < 2 ^ 30
        → (last : Vm R) × (exec_return j now ≡ ok last)
          × ((last.region ≡ vm.region)
              × (last.pc ≡ vm.pc)
              × (last.frame ≡ vm.frame)
              × (last.csp ≡ vm.csp))
          × (vm_stack_pop last ≡ ok (result, record last { sp = pos n }))
    exec_return-nested outer called now j result n c inner cvalid csp cne cbound call framed stacked
          height len res valid sp ne bound =
        let (after, run, frame_is, top, up) = nested_call outer c inner cvalid csp cne cbound in
        let same = ok_injective after called (sym run ∙ call) in
        let frame = saved_frame vm def ls in
        let (last, done, (r, p, f, s), popped) =
          leave_to_caller now frame outer locals ls result n c has
            (subst (λ m. Lists m locals ls) (sym len) lists)
            (omega (arith, length-save vm i def locals ls cell has lists args)) valid sp ne bound
            (ap (λ m. memory_get none m (pos c)) (stacked ∙ sym (ap (λ m. m.call_stack) same))
              ∙ top)
            (height ∙ sym (ap (λ m. m.csp) same) ∙ up) in
        (
          last,
          exec_return-leave now j frame result (framed ∙ sym (ap (λ m. m.frame) same) ∙ frame_is)
                res
              ∙ done,
          (r, p, f ∙ sym inner, s ∙ sym csp),
          popped,
        )
