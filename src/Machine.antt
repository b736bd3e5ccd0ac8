-- ===== src/Machine.antt =====
-- src/machine/vm.c and vm.h: the state of the virtual machine, its stacks and its buffers.
-- A code block is the list of its instructions (Bytecode.Growth); the heap holds the iterators; what
-- the program prints is appended to `output`. A call frame is a `function_t` that
-- `instruction_call` copied, with the fields that only such a copy uses.
pub mod Stacks
use nord.Prelude.{
  ℕ, zero, suc, ◌+◌, ◌-◌, ◌*◌, ◌^◌, Bool, true, false, Option, none, some, List, [], ◌∷◌, ◌++◌,
  ◌==◌, leb, if◌then◌else◌, length, get_elem?, set, replicate,
}
use nord.Prelude.Int.{ℤ, pos, negsuc, incr, decr}
use nord.Prelude.Result.{Result, ok, fault, out_of_bounds, indeterminate, assertion, ◌>>=◌}
use nord.Memory.{Memory, memory_create, memory_set, memory_get}
use nord.Symbol.{SymbolMap}
use nord.Value
use nord.Value.{Value, Values, Address, FunctionDef, Iterator, is_collection, to_list}

-- The opcodes of src/machine/bytecode.h.
pub data Opcode : Type 0 where
  op_nil op_load op_loadv op_store op_move op_push op_pop op_restore op_jmp : Opcode
  op_add op_subtract op_multiply op_divide op_negate op_modulo : Opcode
  op_and op_or op_not op_equal op_lessthan : Opcode
  op_deref op_call op_call_dynamic op_return op_import : Opcode

-- The operands share four bytes: a triplet is the first three, a pair is the first byte and the
-- 16-bit number of the last two (the second byte pads it).
pub record Instruction : Type 0 where
  pub opcode : Opcode
  pub byte0 : ℕ
  pub byte1 : ℕ
  pub byte2 : ℕ
  pub byte3 : ℕ

-- The operands of a pair.
abbrev pub pair1 : Instruction → ℕ
pair1 i = i.byte0

abbrev pub pair2 : Instruction → ℕ
pair2 i = i.byte2 + 256 * i.byte3

pub record Frame (R : Type 0) : Type 0 where
  pub def : FunctionDef
  pub return_address : Address
  pub save : List (Value R)

pub record Vm (R : Type 0) : Type 0 where
  pub memory : Memory (Value R)
  pub stack : Memory (Value R)
  pub sp : ℤ
  pub call_stack : Memory (Option (Frame R))
  pub csp : ℤ
  pub regions : List (List Instruction)
  pub region : ℕ
  pub pc : ℕ
  pub registers : List (Value R)
  pub frame : Option (Frame R)
  pub inbound : Memory (Value R)
  pub size_inbound : ℕ
  pub outbound : Memory (Value R)
  pub size_outbound : ℕ
  pub symbols : SymbolMap
  pub heap : List (Iterator R)
  pub output : List ℕ

abbrev pub stack_size : ℕ
stack_size = 256

-- The parts of a binary that a machine takes.
pub record Binary (R : Type 0) : Type 0 where
  pub data_ : Memory (Value R)
  pub code : List (List Instruction)
  pub symbols : SymbolMap

abbrev pub found {ℓ} : {A : Type ℓ} → Option A → Result A
found none = fault out_of_bounds
found (some a) = ok a

module _ {R : Type 0} where
  -- `malloc` leaves the frame as it finds it, and only the first 128 registers are zeroed.
  unfoldable pub vm_create : Binary R → Option (Frame R) → Vm R
  unfolding memory_create
  vm_create binary leftover = record {
    memory = binary.data_;
    stack = memory_create Value.absent stack_size;
    sp = pos 0;
    call_stack = memory_create none stack_size;
    csp = pos 0;
    regions = binary.code;
    region = 0;
    pc = 0;
    registers = replicate 128 Value.absent ++ replicate 128 Value.indeterminate;
    frame = leftover;
    inbound = memory_create Value.absent stack_size;
    size_inbound = 0;
    outbound = memory_create Value.absent stack_size;
    size_outbound = 0;
    symbols = binary.symbols;
    heap = [];
    output = [];
  }

  unfoldable pub vm_stack_push : Vm R → Value R → Result (Vm R)
  vm_stack_push vm val = memory_set Value.absent vm.stack vm.sp val >>= λ s.
      ok (record vm { stack = s; sp = incr vm.sp })

  unfoldable pub vm_stack_pop : Vm R → Result (Value R × Vm R)
  vm_stack_pop vm =
      let sp = decr vm.sp in
      memory_get Value.absent vm.stack sp >>= λ v. ok (v, record vm { sp = sp })

  unfoldable pub vm_cstack_push : Vm R → Option (Frame R) → Result (Vm R)
  vm_cstack_push vm val = memory_set none vm.call_stack vm.csp val >>= λ s.
      ok (record vm { call_stack = s; csp = incr vm.csp })

  unfoldable pub vm_cstack_pop : Vm R → Result (Option (Frame R) × Vm R)
  vm_cstack_pop vm =
      let csp = decr vm.csp in
      memory_get none vm.call_stack csp >>= λ v. ok (v, record vm { csp = csp })

  unfoldable pub vm_add_inbound_value : Vm R → Value R → Result (Vm R)
  vm_add_inbound_value vm value =
      memory_set Value.absent vm.inbound (pos vm.size_inbound) value >>= λ m.
      ok (record vm { inbound = m; size_inbound = vm.size_inbound + 1 })

  -- The loop of `vm_get_inbound_values`, with `n` rounds left at index `i`.
  unfoldable pub inbound_from : ℕ → ℕ → Memory (Value R) → Result (List (Value R))
  inbound_from zero i mem = ok (Value.nil ∷ [])
  inbound_from (suc n) i mem = memory_get Value.absent mem (pos i) >>= λ v.
      inbound_from n (i + 1) mem >>= λ rest. ok (v ∷ rest)

  -- The values, a nil behind them, and the buffer emptied.
  unfoldable pub vm_get_inbound_values : Vm R → Result (List (Value R) × Vm R)
  unfolding inbound_from
  vm_get_inbound_values vm =
      inbound_from vm.size_inbound 0 vm.inbound >>= λ vs. ok (vs, record vm { size_inbound = 0 })

  -- `size_outbound` is a `size_t`: one below zero it is beyond every capacity as an address.
  unfoldable pub vm_get_outbound_value : Vm R → Result (Value R × Vm R)
  vm_get_outbound_value vm = elim vm.size_outbound [
    | zero ↦ ok (Value.absent, record vm { size_outbound = 2 ^ 64 - 1 })
    | suc n ↦
        memory_get Value.absent vm.outbound (pos n) >>= λ v. ok (v, record vm { size_outbound = n })
  ]

  unfoldable pub vm_add_outbound_value : Vm R → Value R → Result (Vm R)
  vm_add_outbound_value vm value =
      memory_set Value.absent vm.outbound (pos vm.size_outbound) value >>= λ m.
      ok (record vm { outbound = m; size_outbound = vm.size_outbound + 1 })

  -- A register may be copied before it is written. A 16-bit operand can point past the array.
  unfoldable pub get_register : Vm R → ℕ → Result (Value R)
  get_register vm i = found (get_elem? vm.registers i)

  unfoldable pub set_register : Vm R → ℕ → Value R → Result (Vm R)
  set_register vm i v =
      if leb (length vm.registers) i
      then fault out_of_bounds
      else ok (record vm { registers = set vm.registers i v })

  -- src/machine/value.c `iterator_create`: the new cell stands at the end of the heap.
  abbrev pub iterator_over : Vm R → ℕ → Value R → Result (Value R × Vm R)
  iterator_over vm n collection = ok (
    Value.iterator (length vm.heap),
    record vm { heap = vm.heap ++ record { index = 0; length = n; iterable = collection } ∷ [] },
  )

  unfoldable pub iterator_create : Vm R → Value R → Result (Value R × Vm R)
  iterator_create vm (Value.str s) = iterator_over vm (length s) (Value.str s)
  iterator_create vm (Value.tuple vs) = iterator_over vm (length (to_list vs)) (Value.tuple vs)
  iterator_create vm Value.indeterminate = fault indeterminate
  iterator_create vm _ = fault assertion
