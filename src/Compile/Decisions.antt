-- ===== src/Compile/Decisions.antt =====
-- src/machine/vm.c: what the code behind the operands of a comparison does when it runs.
use nord.Prelude.{
  ℕ, ◌+◌, ◌*◌, ◌/◌, ◌%◌, ◌<◌, ◌≡◌, refl, ap, ◌∙◌, Bool, true, false, not, some, List, ◌==◌, arith,
  length, get_elem?, set, length-set, get_elem?-set_self, lt→leb,
}
use mathlib.Core.Path.{subst}
use nord.Prelude.Int.{pos}
use nord.Prelude.Result.{Result, ok, ◌>>=◌}
use nord.Floats.{Floats, IsExact, IsSmall}
use nord.Word.{slt}
use nord.Memory.{memory_get}
use nord.Value.{Value}
use nord.Operand.{bit}
use nord.Operators.{equal_values, lessthan_values}
use nord.Operators.Comparison.{compare_ints}
use nord.Machine
use nord.Machine.{Instruction, Opcode, Vm, found, get_register, set_register}
use nord.Transfer.{exec_move}
use nord.Calls.{Environment}
use nord.Execute.{dispatch, step}
use nord.Execute.Fuel.{Reaches, here, round, step_lem}
use nord.Codegen.{instruction3}
use nord.Codegen.Comparison.{IsPlaced, IsComparison, equal, lessthan, comparison_code-Reaches}
use nord.Compile.Comparisons.{
  Comparator, equals, differs, less, greater, comparator_opcode, condition_of, outcome,
  outcome_code,
}
use nord.Compile.Rounds.{Stands, Reaches-join}

exec_move_lem :
    {R : Type 0} (vm : Vm R) (r s : ℕ) (v : Value R)
    → r < 256
    → s < 256
    → r < length vm.registers
    → get_elem? vm.registers s ≡ some v
    → exec_move (instruction3 nord.Machine.op_move r s) vm
      ≡ ok (record vm { registers = set vm.registers r v })
unfolding exec_move set_register get_register
exec_move_lem vm r s v r8 s8 inside p =
    let low : r % 256 ≡ r = omega arith in
    let pair : s % 256 + 256 * (s / 256 % 256) ≡ s = omega arith in
    rw (pair, p, low, lt→leb r (length vm.registers) inside)

-- What the machine's test of the two numbers gives, before it is compared with the condition.
abbrev tested : Comparator → ℕ → ℕ → Bool
tested equals m n = m == n
tested differs m n = m == n
tested less m n = slt m n
tested greater m n = slt m n

bit-one : (b : Bool) → (bit b == 1) ≡ b
bit-one true = refl
bit-one false = refl

bit-zero : (b : Bool) → (bit b == 0) ≡ not b
bit-zero true = refl
bit-zero false = refl

tested-outcome :
    (op : Comparator) (m n : ℕ) → (bit (tested op m n) == condition_of op) ≡ outcome op m n
tested-outcome equals m n = bit-one (m == n)
tested-outcome differs m n = bit-zero (m == n)
tested-outcome less m n = bit-one (slt m n)
tested-outcome greater m n = bit-zero (slt m n)

condition_of_lt : (op : Comparator) → condition_of op < 256
condition_of_lt equals = omega arith
condition_of_lt differs = omega arith
condition_of_lt less = omega arith
condition_of_lt greater = omega arith

-- The truth values stand in the first two cells.
pub record HasTruths {R : Type 0} (vm : Vm R) : Type 0 where
  pub cell0 : memory_get Value.absent vm.memory (pos 0) ≡ ok (Value.boolean false true)
  pub cell1 : memory_get Value.absent vm.memory (pos 1) ≡ ok (Value.boolean true true)

module _ (F : Floats) (exact : IsExact F) (env : Environment) where
  open F use {Real}

  abbrev values_test : Comparator → Value Real → Value Real → Result Bool
  values_test equals = equal_values F
  values_test differs = equal_values F
  values_test less = lessthan_values F
  values_test greater = lessthan_values F

  comparator-IsComparison :
      (op : Comparator) → IsComparison F (comparator_opcode op) (values_test op)
  comparator-IsComparison equals = equal
  comparator-IsComparison differs = equal
  comparator-IsComparison less = lessthan
  comparator-IsComparison greater = lessthan

  values_tested :
      (op : Comparator) (m n : ℕ)
      → IsSmall m
      → IsSmall n
      → values_test op (Value.int m) (Value.int n) ≡ ok (tested op m n)
  values_tested equals m n p q = (compare_ints F exact m n p q).1
  values_tested differs m n p q = (compare_ints F exact m n p q).1
  values_tested less m n p q = (compare_ints F exact m n p q).0
  values_tested greater m n p q = (compare_ints F exact m n p q).0

  move_round :
      (vm : Vm Real) (block : List Instruction) (r s : ℕ) (v : Value Real)
      → get_elem? vm.regions vm.region ≡ some block
      → get_elem? block vm.pc ≡ some (instruction3 nord.Machine.op_move r s)
      → r < 256
      → s < 256
      → r < length vm.registers
      → get_elem? vm.registers s ≡ some v
      → step F env vm ≡ ok (some (record vm { pc = vm.pc + 1; registers = set vm.registers r v }))
  unfolding dispatch
  move_round vm block r s v p q r8 s8 inside a =
      step_lem F env vm block _ p q
      ∙ ap (λ k. k >>= λ next. ok (some next))
          (exec_move_lem (record vm { pc = vm.pc + 1 }) r s v r8 s8 inside a)

  -- The code behind the operands, which are in the registers `r` and `r + 1`.
  pub outcome_code-Reaches :
      (op : Comparator) (vm : Vm Real) (block : List Instruction) (r m n : ℕ)
      → get_elem? vm.regions vm.region ≡ some block
      → Stands block vm.pc (outcome_code op r (r + 2))
      → HasTruths vm
      → (r + 2 < 256) × (r + 2 < length vm.registers) × ((r + 2) / 16 % 8 ≡ 0)
      → IsSmall m
      → IsSmall n
      → get_elem? vm.registers r ≡ some (Value.int m)
      → get_elem? vm.registers (r + 1) ≡ some (Value.int n)
      → let told = Value.boolean (outcome op m n) true in
        Reaches F env vm
          (record vm { pc = vm.pc + 4; registers = set (set vm.registers (r + 2) told) r told })
  outcome_code-Reaches op vm block r m n p h truths (r8, inside, low) sm sn a b =
      let told : Value Real = Value.boolean (outcome op m n) true in
      let at : (k : ℕ)
          → k < 4
          → get_elem? block (vm.pc + k) ≡ get_elem? (outcome_code op r (r + 2)) k =
        λ k lt. h k (omega arith) in
      let start : vm.pc ≡ vm.pc + 0 = omega arith in
      let third : vm.pc + 1 + 1 ≡ vm.pc + 2 = omega arith in
      let placed : IsPlaced vm (comparator_opcode op) (r + 2) (condition_of op) r (r + 1) = record {
        block = block;
        running = p;
        first = ap (get_elem? block) start ∙ at 0 (omega arith);
        second = at 1 (omega arith);
        third = ap (get_elem? block) third ∙ at 2 (omega arith);
        cell0 = truths.cell0;
        cell1 = truths.cell1;
      } in
      let vm₁ = record vm { pc = vm.pc + 3; registers = set vm.registers (r + 2) told } in
      let end : vm.pc + 3 + 1 ≡ vm.pc + 4 = omega arith in
      let first : Reaches F env vm vm₁ =
        subst
          (λ t. Reaches F env vm (record vm {
            pc = vm.pc + 3;
            registers = set vm.registers (r + 2) (Value.boolean t true);
          }))
          (tested-outcome op m n)
          (comparison_code-Reaches F env vm (comparator_opcode op) (values_test op) (r + 2)
            (condition_of op) r (r + 1) (Value.int m) (Value.int n) (tested op m n) placed
            (comparator-IsComparison op) (inside, r8, low)
            (condition_of_lt op, omega arith, omega arith) (omega arith, omega arith) a b
            (values_tested op m n sm sn)) in
      Reaches-join F env first (
        subst
          (λ k.
            Reaches F env vm₁
              (record vm { pc = k; registers = set (set vm.registers (r + 2) told) r told }))
          end
          (round
            (move_round vm₁ block r (r + 2) told p (at 3 (omega arith)) (omega arith) r8
              (omega (arith, length-set vm.registers (r + 2) told))
              (get_elem?-set_self vm.registers (r + 2) told inside))
            here))
