-- ===== src/Codegen/Comparison.antt =====
-- src/compiler/compile.c and src/machine/vm.c: what the code of a comparison does when it runs.
use nord.Prelude.{
  ℕ, ◌+◌, ◌*◌, ◌/◌, ◌%◌, ◌<◌, ◌≡◌, ◌≢◌, refl, ap, ◌∙◌, Bool, true, false, some, List, arith, ◌==◌,
  if◌then◌else◌, length, get_elem?, set, lt→leb, get_elem?-set_ne, set-set, length-set, eq→==,
}
use mathlib.Core.Path.{subst}
use nord.Prelude.Int.{pos}
use nord.Prelude.Result.{Result, ok, ◌>>=◌}
use nord.Floats.{Floats}
use nord.Memory.{memory_get}
use nord.Value.{Value}
use nord.Operand.{bit}
use nord.Operators.{with_comparison, equal_values, lessthan_values}
use nord.Machine.{Opcode, Instruction, Vm, found, get_register, set_register, pair1, pair2}
use nord.Transfer.{exec_load}
use nord.Calls.{Environment}
use nord.Execute.{dispatch, step}
use nord.Execute.Fuel.{Reaches, here, round, step_lem}
use nord.Codegen.{instruction3, instruction4}

byte_lem : (b : ℕ) → b < 256 → b % 256 ≡ b
byte_lem b h = omega arith

pair_lem : (a : ℕ) → a < 256 → a % 256 + 256 * (a / 256 % 256) ≡ a
pair_lem a h = omega arith

module _ {R : Type 0} where
  exec_load_lem :
      (vm : Vm R) (base address : ℕ) (v : Value R)
      → base < 256
      → base / 16 % 8 ≡ 0
      → address < 256
      → base < length vm.registers
      → memory_get Value.absent vm.memory (pos address) ≡ ok v
      → exec_load (instruction3 nord.Machine.op_load base address) vm
        ≡ ok (record vm { registers = set vm.registers base v })
  unfolding exec_load set_register
  exec_load_lem vm base address v b8 low a8 inside m = rw (
    byte_lem base b8,
    pair_lem address a8,
    eq→== (base / 16 % 8) 0 low,
    m,
    lt→leb base (length vm.registers) inside,
  )

  moved :
      (vm : Vm R) (c c' : ℕ) (rs rs' : List (Value R))
      → c ≡ c'
      → rs ≡ rs'
      → record vm { pc = c; registers = rs } ≡ record vm { pc = c'; registers = rs' }
  moved vm c c' rs rs' p q = cc

  -- The comparison with its outcome known.
  with_comparison_lem :
      (f : Value R → Value R → Result Bool) (op : Opcode) (condition left right : ℕ) (vm : Vm R)
      (a b : Value R) (r : Bool)
      → condition < 256
      → left < 256
      → right < 256
      → get_elem? vm.registers left ≡ some a
      → get_elem? vm.registers right ≡ some b
      → f a b ≡ ok r
      → with_comparison f (instruction4 op condition left right) vm
        ≡ ok (if bit r == condition then vm else record vm { pc = vm.pc + 1 })
  unfolding with_comparison get_register
  with_comparison_lem f op condition left right vm a b r c8 l8 r8 p q s =
      rw (byte_lem condition c8, byte_lem left l8, byte_lem right r8, p, q, s)

-- The function that a comparison instruction computes.
pub data IsComparison (F : Floats)
    : Opcode → (Value F.Real → Value F.Real → Result Bool) → Type 0 where
  equal : IsComparison F nord.Machine.op_equal (equal_values F)
  lessthan : IsComparison F nord.Machine.op_lessthan (lessthan_values F)

-- The three instructions stand at the counter, and the constants in the first two cells of memory.
pub record IsPlaced {R : Type 0} (vm : Vm R) (op : Opcode) (base condition left right : ℕ)
    : Type 0 where
  pub block : List Instruction
  pub running : get_elem? vm.regions vm.region ≡ some block
  pub first : get_elem? block vm.pc ≡ some (instruction3 nord.Machine.op_load base 0)
  pub second : get_elem? block (vm.pc + 1) ≡ some (instruction4 op condition left right)
  pub third : get_elem? block (vm.pc + 1 + 1) ≡ some (instruction3 nord.Machine.op_load base 1)
  pub cell0 : memory_get Value.absent vm.memory (pos 0) ≡ ok (Value.boolean false true)
  pub cell1 : memory_get Value.absent vm.memory (pos 1) ≡ ok (Value.boolean true true)

module _ (F : Floats) (env : Environment) where
  open F use {Real}

  load_round :
      (vm : Vm Real) (block : List Instruction) (base address : ℕ) (v : Value Real)
      → get_elem? vm.regions vm.region ≡ some block
      → get_elem? block vm.pc ≡ some (instruction3 nord.Machine.op_load base address)
      → base < 256
      → base / 16 % 8 ≡ 0
      → address < 256
      → base < length vm.registers
      → memory_get Value.absent vm.memory (pos address) ≡ ok v
      → step F env vm
        ≡ ok (some (record vm { pc = vm.pc + 1; registers = set vm.registers base v }))
  unfolding dispatch
  load_round vm block base address v p q b8 low a8 inside m =
      step_lem F env vm block _ p q
      ∙ ap (λ r. r >>= λ next. ok (some next))
          (exec_load_lem (record vm { pc = vm.pc + 1 }) base address v b8 low a8 inside m)

  dispatch_comparison :
      (op : Opcode) (f : Value Real → Value Real → Result Bool) (i : Instruction) (vm : Vm Real)
      → IsComparison F op f
      → dispatch F env i op vm ≡ with_comparison f i vm
  unfolding dispatch
  dispatch_comparison op f i vm equal = refl
  dispatch_comparison op f i vm lessthan = refl

  module _ (vm : Vm Real) (op : Opcode) (f : Value Real → Value Real → Result Bool)
      (base condition left right : ℕ) where
    -- The second round, behind the load of false.
    compare_round :
        (placed : IsPlaced vm op base condition left right) (a b : Value Real) (r : Bool)
        → IsComparison F op f
        → condition < 256
        → left < 256
        → right < 256
        → base ≢ left
        → base ≢ right
        → get_elem? vm.registers left ≡ some a
        → get_elem? vm.registers right ≡ some b
        → f a b ≡ ok r
        → let vm1 = record vm {
          pc = vm.pc + 1;
          registers = set vm.registers base (Value.boolean false true);
        } in
          step F env vm1
          ≡ ok (
              some (
                if bit r == condition
                then record vm1 { pc = vm.pc + 1 + 1 }
                else record vm1 { pc = vm.pc + 1 + 1 + 1 }))
    compare_round placed a b r is c8 l8 r8 nl nr p q s =
        let reg = set vm.registers base (Value.boolean false true) in
        let vm2 = record vm { pc = vm.pc + 1 + 1; registers = reg } in
        step_lem F env (record vm { pc = vm.pc + 1; registers = reg }) placed.block _ placed.running
          placed.second
        ∙ ap (λ r. r >>= λ next. ok (some next))
            (dispatch_comparison op f (instruction4 op condition left right) vm2 is
              ∙ with_comparison_lem f op condition left right vm2 a b r c8 l8 r8
                  (get_elem?-set_ne vm.registers base left _ nl ∙ p)
                  (get_elem?-set_ne vm.registers base right _ nr ∙ q) s)

    -- The third round, or none if it was skipped.
    last_rounds :
        (placed : IsPlaced vm op base condition left right) (t : Bool)
        → base < 256
        → base / 16 % 8 ≡ 0
        → base < length vm.registers
        → let reg = set vm.registers base (Value.boolean false true) in
          Reaches F env
            (if t
              then record vm { pc = vm.pc + 1 + 1; registers = reg }
              else record vm { pc = vm.pc + 1 + 1 + 1; registers = reg })
            (record vm { pc = vm.pc + 3; registers = set vm.registers base (Value.boolean t true) })
    last_rounds placed true b8 low inside =
        let reg = set vm.registers base (Value.boolean false true) in
        let vm2 = record vm { pc = vm.pc + 1 + 1; registers = reg } in
        subst (Reaches F env vm2)
          (moved vm _ _ _ _ (omega arith)
            (set-set vm.registers base (Value.boolean false true) (Value.boolean true true)))
          (round
            (load_round vm2 placed.block base 1 _ placed.running placed.third b8 low (omega arith)
              (omega (arith, length-set vm.registers base (Value.boolean false true))) placed.cell1)
            here)
    last_rounds placed false b8 low inside =
        let reg = set vm.registers base (Value.boolean false true) in
        let vm3 = record vm { pc = vm.pc + 1 + 1 + 1; registers = reg } in
        subst (Reaches F env vm3) (moved vm _ _ _ _ (omega arith) refl) here

    -- The code of a comparison at the counter, with its operands in registers other than the base,
    -- and with a base whose number divided by 16 is 0 modulo 8 (loads into other registers read the
    -- stack), runs to the instruction behind it. On a machine with the truth values in its first two
    -- cells, it leaves in the base register whether the outcome of the comparison, which has to
    -- succeed, is the condition, and changes no other part of the machine.
    pub comparison_code-Reaches :
        (a b : Value Real) (r : Bool)
        → IsPlaced vm op base condition left right
        → IsComparison F op f
        → (base < length vm.registers) × (base < 256) × (base / 16 % 8 ≡ 0)
        → (condition < 256) × (left < 256) × (right < 256)
        → (base ≢ left) × (base ≢ right)
        → get_elem? vm.registers left ≡ some a
        → get_elem? vm.registers right ≡ some b
        → f a b ≡ ok r
        → Reaches F env vm (record vm {
          pc = vm.pc + 3;
          registers = set vm.registers base (Value.boolean (bit r == condition) true);
        })
    comparison_code-Reaches a b r placed is (inside, b8, low) (c8, l8, r8) (nl, nr) p q s =
        round
          (load_round vm placed.block base 0 _ placed.running placed.first b8 low (omega arith)
            inside placed.cell0)
          (round (compare_round placed a b r is c8 l8 r8 nl nr p q s)
            (last_rounds placed (bit r == condition) b8 low inside))
