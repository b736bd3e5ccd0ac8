-- ===== src/Compile/Computes.antt =====
-- src/compiler/compile.c and src/machine/vm.c: what the code of an integer expression does when it
-- runs.
use nord.Prelude.{
  ℕ, ◌+◌, ◌<◌, ◌≡◌, ap, sym, ◌∙◌, some, List, [], ◌∷◌, ◌++◌, arith, length, get_elem?, set, take,
  length-set, get_elem?-set_self, get_elem?-ge, none, length-append,
}
use mathlib.Core.Path.{subst}
use nord.Prelude.Result.{ok}
use nord.Floats.{Floats}
use nord.Word.{wneg}
use nord.Bytecode.{CodeBlock}
use nord.Syntax.{Ast}
use nord.Value
use nord.Value.{Value}
use nord.Machine
use nord.Machine.{Instruction, Opcode, Vm, found, get_register, set_register}
use nord.Calls.{Environment}
use nord.Execute.{step, vm_execute}
use nord.Execute.Fuel.{Reaches, here, round, Reaches-Runs, Runs-vm_execute, halts}
use nord.Codegen.{instruction3, instruction4}
use nord.Compile.{CompileContext, placed}
use nord.Compile.Program.{compile_ast}
use nord.Compile.Expressions.{
  Operator, opcode_of, apply, Arithmetic, number, grouped, negation, operation, height, code, Coded,
}
use nord.Compile.Arithmetic.{arithmetic_ok}
use nord.Compile.Rounds.{
  take-set, take-take, get_elem?-take, Stands, Stands-append_left, Stands-append_right,
  Stands-append_end, Stands-singleton, Reaches-join, operator_round, number_round, negate_round,
}

module _ (F : Floats) (env : Environment) where
  open F use {Real}

  -- The machine runs to the end of the code, where the value is in the register of the result and
  -- the registers below it are as they were.
  pub record Computed (vm : Vm Real) (r v length_ : ℕ) : Type 0 where
    pub registers : List (Value Real)
    pub reaches : Reaches F env vm (record vm { pc = vm.pc + length_; registers = registers })
    pub result : get_elem? registers r ≡ some (Value.int v)
    pub below : take r registers ≡ take r vm.registers
    pub kept : length registers ≡ length vm.registers

  -- Two operands whose code has run, one behind the other, and the operator behind them.
  operation-Computed :
      (op : Operator) (vm : Vm Real) (block : List Instruction) (r m n : ℕ) (A B : List Instruction)
      → get_elem? vm.regions vm.region ≡ some block
      → Stands block vm.pc ((A ++ B) ++ instruction4 (opcode_of op) r r (r + 1) ∷ [])
      → r + 1 < 256
      → r < length vm.registers
      → (x : Computed vm r m (length A))
      → Computed (record vm { pc = vm.pc + length A; registers = x.registers }) (r + 1) n (length B)
      → Computed vm r
          (apply op m n)
          (length ((A ++ B) ++ instruction4 (opcode_of op) r r (r + 1) ∷ []))
  operation-Computed op vm block r m n A B p h r8 inside x y =
      let i = instruction4 (opcode_of op) r r (r + 1) in
      let at : ℕ = vm.pc + length A + length B in
      let here_ : vm.pc + length (A ++ B) ≡ at = omega (arith, length-append A B) in
      let end : at + 1 ≡ vm.pc + length ((A ++ B) ++ i ∷ []) =
        omega (arith, length-append A B, length-append (A ++ B) (i ∷ [])) in
      let left : get_elem? y.registers r ≡ some (Value.int m) =
        sym (get_elem?-take y.registers (r + 1) r (omega arith))
        ∙ ap (λ rs. get_elem? rs r) y.below
        ∙ get_elem?-take x.registers (r + 1) r (omega arith)
        ∙ x.result in
      let standing : get_elem? block at ≡ some i =
        ap (get_elem? block) (sym here_)
        ∙ Stands-singleton block _ i (Stands-append_right block (A ++ B) (i ∷ []) vm.pc h) in
      let registers = set y.registers r (Value.int (apply op m n)) in
      record {
        registers = registers;
        reaches = Reaches-join F env x.reaches (
            Reaches-join F env y.reaches (
              subst
                (λ k.
                  Reaches F env (record vm { pc = at; registers = y.registers })
                    (record vm { pc = k; registers = registers }))
                end
                (round
                  (operator_round F env op (record vm { pc = at; registers = y.registers }) block r
                    m n p standing r8 (omega (arith, x.kept, y.kept)) left y.result)
                  here)));
        result = get_elem?-set_self y.registers r _ (omega (arith, x.kept, y.kept));
        below =
            take-set y.registers r r _ (omega arith)
            ∙ sym (take-take y.registers r (r + 1) (omega arith))
            ∙ ap (take r) y.below
            ∙ take-take x.registers r (r + 1) (omega arith)
            ∙ x.below;
        kept = length-set y.registers r _ ∙ y.kept ∙ x.kept;
      }

  -- An operand whose code has run, and the negation behind it.
  negation-Computed :
      (vm : Vm Real) (block : List Instruction) (r n : ℕ) (A : List Instruction)
      → get_elem? vm.regions vm.region ≡ some block
      → Stands block vm.pc (A ++ instruction3 nord.Machine.op_negate r r ∷ [])
      → r < 256
      → r < length vm.registers
      → Computed vm r n (length A)
      → Computed vm r (wneg n) (length (A ++ instruction3 nord.Machine.op_negate r r ∷ []))
  negation-Computed vm block r n A p h r8 inside x =
      let i = instruction3 nord.Machine.op_negate r r in
      let registers = set x.registers r (Value.int (wneg n)) in
      let mid = record vm { pc = vm.pc + length A; registers = x.registers } in
      let end : vm.pc + length A + 1 ≡ vm.pc + length (A ++ i ∷ []) =
        omega (arith, length-append A (i ∷ [])) in
      record {
        registers = registers;
        reaches = Reaches-join F env x.reaches (
            subst (λ k. Reaches F env mid (record vm { pc = k; registers = registers })) end
              (round
                (negate_round F env mid block r n p
                  (Stands-singleton block _ i (Stands-append_right block A (i ∷ []) vm.pc h)) r8
                  (omega (arith, x.kept)) x.result)
                here));
        result = get_elem?-set_self x.registers r _ (omega (arith, x.kept));
        below = take-set x.registers r r _ (omega arith) ∙ x.below;
        kept = length-set x.registers r _ ∙ x.kept;
      }

  pub code-Computed :
      {t : Ast} {v : ℕ} (d : Arithmetic t v) (vm : Vm Real) (block : List Instruction) (r : ℕ)
      → get_elem? vm.regions vm.region ≡ some block
      → Stands block vm.pc (code d r)
      → r + height d < 256
      → r + height d < length vm.registers
      → Computed vm r v (length (code d r))
  unfolding code height
  code-Computed (number {n = n} e small) vm block r p h r8 inside = record {
    registers = set vm.registers r (Value.int n);
    reaches =
        round
          (number_round F env vm block r n p (Stands-singleton block vm.pc _ h) (omega arith)
            (omega arith) small)
          here;
    result = get_elem?-set_self vm.registers r _ (omega arith);
    below = take-set vm.registers r r _ (omega arith);
    kept = length-set vm.registers r _;
  }
  code-Computed (grouped d) vm block r p h r8 inside = code-Computed d vm block r p h r8 inside
  code-Computed (negation d) vm block r p h r8 inside =
      negation-Computed vm block r _ (code d r) p h (omega arith) (omega arith)
        (code-Computed d vm block r p (Stands-append_left block (code d r) _ vm.pc h) r8 inside)
  code-Computed (operation {m = m} {n = n} op d f) vm block r p h r8 inside =
      let A = code d r in
      let B = code f (r + 1) in
      let AB = Stands-append_left block (A ++ B) _ vm.pc h in
      let x =
        code-Computed d vm block r p (Stands-append_left block A B vm.pc AB) (omega arith)
          (omega arith) in
      operation-Computed op vm block r m n A B p h (omega arith) (omega arith) x (
        code-Computed f (record vm { pc = vm.pc + length A; registers = x.registers }) block (r + 1)
          p (Stands-append_right block A B vm.pc AB) (omega arith) (omega (arith, x.kept)))

  -- Where a run reaches the end of its block the loop ends.
  pub Reaches-vm_execute :
      (vm : Vm Real) (xs ys : List Instruction) (rs : List (Value Real))
      → vm.pc ≡ length xs
      → get_elem? vm.regions vm.region ≡ some (xs ++ ys)
      → Reaches F env vm (record vm { pc = vm.pc + length ys; registers = rs })
      → (fuel : ℕ) × (vm_execute F env fuel vm
          ≡ ok (record vm { pc = vm.pc + length ys; registers = rs }))
  unfolding step
  Reaches-vm_execute vm xs ys rs start running reaches =
      let past : get_elem? (xs ++ ys) (vm.pc + length ys) ≡ none =
        get_elem?-ge (xs ++ ys) _ (omega (arith, start, length-append xs ys)) in
      let (fuel, enough) =
        Runs-vm_execute F env (Reaches-Runs F env reaches (halts (rw (running, past)))) in
      (fuel, enough fuel (omega arith))

  -- An integer expression is compiled without an error, to code that is appended to the current
  -- block and has its result in the register that the register pointer names. On a machine with
  -- room for the registers, that stands at this code in a block that ends with it, the loop ends
  -- behind the code: the register has the value of the expression, and the registers below it are
  -- as they were.
  pub compile_ast-vm_execute :
      (atof : List ℕ → Real) (usable : ℕ → ℕ) {t : Ast} {v : ℕ} (d : Arithmetic t v)
      (c : CompileContext Real) (xs : List Instruction) (vm : Vm Real)
      → Coded c.blocks c.current xs
      → c.rp + height d < 256
      → c.rp + height d < length vm.registers
      → vm.pc ≡ length xs
      → get_elem? vm.regions vm.region ≡ some (xs ++ code d c.rp)
      → ((bs : List (CodeBlock Instruction)) × (compile_ast atof usable t c
            ≡ ok (placed c.rp nord.Value.val_int, record c { blocks = bs }))
          × Coded bs c.current (xs ++ code d c.rp))
        × ((fuel : ℕ) × (rs : List (Value Real)) × (vm_execute F env fuel vm
              ≡ ok (record vm { pc = vm.pc + length (code d c.rp); registers = rs }))
            × (get_elem? rs c.rp ≡ some (Value.int v))
            × (take c.rp rs ≡ take c.rp vm.registers))
  compile_ast-vm_execute atof usable d c xs vm coded room registers start running =
      let x =
        code-Computed d vm (xs ++ code d c.rp) c.rp running
          (subst (λ n. Stands (xs ++ code d c.rp) n (code d c.rp)) (sym start)
            (Stands-append_end xs (code d c.rp)))
          room registers in
      let (fuel, ran) =
        Reaches-vm_execute vm xs (code d c.rp) x.registers start running x.reaches in
      (arithmetic_ok atof usable d c xs coded room, (fuel, x.registers, ran, x.result, x.below))
