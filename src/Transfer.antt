-- ===== src/Transfer.antt =====
-- src/machine/vm.c, `vm_execute`: the instructions that move values between memory, the stack,
-- the registers and an iterator, and the jump. The program counter is 64 bits wide.
pub mod Iteration
use nord.Prelude.{ℕ, ◌+◌, ◌/◌, ◌%◌, ◌^◌, ◌==◌, if◌then◌else◌, get_elem?, set}
use nord.Prelude.Int.{pos}
use nord.Prelude.Result.{Result, ok, fault, indeterminate, assertion, ◌>>=◌}
use nord.Memory.{memory_set, memory_get}
use nord.Word.{wsub, widen16, widen32}
use nord.Value.{Value, to_list}
use nord.Operand.{number_of}
use nord.Machine.{
  Instruction, Vm, found, vm_stack_push, vm_stack_pop, get_register, set_register, pair1, pair2,
}

module _ {R : Type 0} where
  unfoldable pub exec_nil : Instruction → Vm R → Result (Vm R)
  unfolding set_register
  exec_nil i vm = set_register vm (pair2 i) Value.nil

  -- `OP_LOAD`: bits 4 to 6 of the target register choose the stack.
  unfoldable pub exec_load : Instruction → Vm R → Result (Vm R)
  unfolding set_register
  exec_load i vm =
      let mem = if pair1 i / 16 % 8 == 0 then vm.memory else vm.stack in
      memory_get Value.absent mem (pos (pair2 i)) >>= λ v. set_register vm (pair1 i) v

  unfoldable pub exec_store : Instruction → Vm R → Result (Vm R)
  unfolding get_register
  exec_store i vm = get_register vm (pair2 i) >>= λ v.
      memory_set Value.absent vm.memory (pos (pair1 i)) v >>= λ m. ok (record vm { memory = m })

  unfoldable pub exec_push : Instruction → Vm R → Result (Vm R)
  unfolding get_register vm_stack_push
  exec_push i vm = get_register vm (pair2 i) >>= λ v. vm_stack_push vm v

  unfoldable pub exec_pop : Instruction → Vm R → Result (Vm R)
  unfolding set_register vm_stack_pop
  exec_pop i vm = vm_stack_pop vm >>= λ p. set_register p.1 (pair2 i) p.0

  -- The counter is already past the jump: `n - 1` is added, widened to 64 bits.
  unfoldable pub exec_jmp : Instruction → Vm R → Result (Vm R)
  unfolding get_register number_of wsub widen32
  exec_jmp i vm = get_register vm (pair2 i) >>= λ v.
      number_of v >>= λ n. ok (record vm { pc = (vm.pc + widen32 (wsub n 1)) % 2 ^ 64 })

  unfoldable pub exec_loadv : Instruction → Vm R → Result (Vm R)
  unfolding set_register widen16
  exec_loadv i vm = set_register vm (pair1 i) (Value.int (widen16 (pair2 i)))

  unfoldable pub exec_move : Instruction → Vm R → Result (Vm R)
  unfolding get_register set_register
  exec_move i vm = get_register vm (pair2 i) >>= λ v. set_register vm (pair1 i) v

  -- What `OP_DEREF` takes from an iterator that is not at its end. Over a text nothing is stored in
  -- the result.
  abbrev pub element : Value R → ℕ → Result (Value R)
  element (Value.tuple vs) index = found (get_elem? (to_list vs) index)
  element (Value.str s) index = ok Value.indeterminate
  element v index = fault assertion

  abbrev pub iterator_cell : Value R → Result ℕ
  iterator_cell (Value.iterator cell) = ok cell
  iterator_cell Value.indeterminate = fault indeterminate
  iterator_cell _ = fault assertion

  unfoldable pub exec_deref : Instruction → Vm R → Result (Vm R)
  unfolding get_register set_register
  exec_deref i vm = get_register vm i.byte1 >>= λ v. iterator_cell v >>= λ cell.
      found (get_elem? vm.heap cell) >>= λ iter.
      if iter.index == iter.length
      then set_register vm i.byte0 Value.nil
      else element iter.iterable iter.index >>= (λ x.
        set_register
          (record vm { heap = set vm.heap cell (record iter { index = iter.index + i.byte2 }) })
          i.byte0 x)
