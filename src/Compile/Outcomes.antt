-- ===== src/Compile/Outcomes.antt =====
-- src/compiler/compile.c and src/machine/vm.c: what the code of a comparison of integer expressions
-- does when it runs.
use nord.Prelude.{
  ℕ, ◌+◌, ◌/◌, ◌%◌, ◌<◌, ◌≡◌, ap, sym, ◌∙◌, true, some, List, ◌++◌, arith, length, get_elem?, set,
  take, length-set, get_elem?-set_self, length-append,
}
use mathlib.Core.Path.{subst}
use nord.Prelude.Result.{ok}
use nord.Floats.{Floats, IsExact, IsSmall}
use nord.Bytecode.{CodeBlock}
use nord.Syntax.{Ast, Location}
use nord.Value
use nord.Value.{Value}
use nord.Machine.{Instruction, Vm}
use nord.Calls.{Environment}
use nord.Execute.{vm_execute}
use nord.Execute.Fuel.{Reaches}
use nord.Compile.{CompileContext, placed}
use nord.Compile.Program.{compile_ast}
use nord.Compile.Expressions.{Arithmetic, height, code, Coded}
use nord.Compile.Comparisons.{
  Comparator, outcome, compared, outcome_code, compared_code, compared_ok,
}
use nord.Compile.Rounds.{
  take-set, take-take, get_elem?-take, Stands, Stands-append_left, Stands-append_right,
  Stands-append_end, Reaches-join,
}
use nord.Compile.Computes.{code-Computed, Reaches-vm_execute}
use nord.Compile.Decisions.{HasTruths, outcome_code-Reaches}

module _ (F : Floats) (exact : IsExact F) (env : Environment) where
  open F use {Real}

  -- The operands and the code behind them.
  compared_code-Reaches :
      (op : Comparator) {a b : Ast} {m n : ℕ} (d : Arithmetic a m) (f : Arithmetic b n)
      (vm : Vm Real) (block : List Instruction) (r : ℕ)
      → get_elem? vm.regions vm.region ≡ some block
      → Stands block vm.pc (compared_code op d f r)
      → HasTruths vm
      → r + height d + height f + 2 < 256
      → r + height d + height f + 2 < length vm.registers
      → (r + 2) / 16 % 8 ≡ 0
      → IsSmall m
      → IsSmall n
      → (rs : List (Value Real)) × Reaches F env vm
          (record vm { pc = vm.pc + length (compared_code op d f r); registers = rs })
        × (get_elem? rs r ≡ some (Value.boolean (outcome op m n) true))
        × (take r rs ≡ take r vm.registers)
  compared_code-Reaches op {m = m} {n = n} d f vm block r p h truths r8 inside low sm sn =
      let A = code d r in
      let B = code f (r + 1) in
      let C = outcome_code op r (r + 2) in
      let told : Value Real = Value.boolean (outcome op m n) true in
      let AB = Stands-append_left block (A ++ B) C vm.pc h in
      let x =
        code-Computed F env d vm block r p (Stands-append_left block A B vm.pc AB) (omega arith)
          (omega arith) in
      let vm₁ = record vm { pc = vm.pc + length A; registers = x.registers } in
      let y =
        code-Computed F env f vm₁ block (r + 1) p (Stands-append_right block A B vm.pc AB)
          (omega arith) (omega (arith, x.kept)) in
      let at : ℕ = vm.pc + length A + length B in
      let vm₂ = record vm { pc = at; registers = y.registers } in
      let here_ : vm.pc + length (A ++ B) ≡ at = omega (arith, length-append A B) in
      let end : at + 4 ≡ vm.pc + length ((A ++ B) ++ C) =
        omega (arith, length-append A B, length-append (A ++ B) C) in
      let left : get_elem? y.registers r ≡ some (Value.int m) =
        sym (get_elem?-take y.registers (r + 1) r (omega arith))
        ∙ ap (λ rs. get_elem? rs r) y.below
        ∙ get_elem?-take x.registers (r + 1) r (omega arith)
        ∙ x.result in
      let truths₂ : HasTruths vm₂ = record { cell0 = truths.cell0; cell1 = truths.cell1 } in
      let last =
        (outcome_code-Reaches F exact env) op vm₂ block r m n p
          (subst (λ k. Stands block k C) here_ (Stands-append_right block (A ++ B) C vm.pc h))
          truths₂ (omega arith, omega (arith, x.kept, y.kept), low) sm sn left y.result in
      let told_in = set y.registers (r + 2) told in
      (
        set told_in r told,
        Reaches-join F env x.reaches (
            Reaches-join F env y.reaches (
              subst (λ k. Reaches F env vm₂ (record vm { pc = k; registers = set told_in r told }))
                end last)),
        get_elem?-set_self told_in r told
            (omega (arith, x.kept, y.kept, length-set y.registers (r + 2) told)),
        take-set told_in r r told (omega arith)
            ∙ take-set y.registers r (r + 2) told (omega arith)
            ∙ sym (take-take y.registers r (r + 1) (omega arith))
            ∙ ap (take r) y.below
            ∙ take-take x.registers r (r + 1) (omega arith)
            ∙ x.below,
      )

  -- A comparison (==, !=, < or >) of two integer expressions with values between -2 ^ 24 and 2 ^
  -- 24, with fewer than 256 registers in use (the register pointer, the heights of the two
  -- expressions and two more), is compiled without an error, to code that is appended to the
  -- current block. On a machine with room for these registers, with the truth values in its first
  -- two cells and with floats that hold such integers exactly, that stands at this code in a block
  -- that ends with it, where the register two above the register pointer is one that loads read
  -- from memory (its number divided by 16 is 0 modulo 8), the loop ends behind the code: the
  -- register that the register pointer names has the outcome, and the registers below it are as
  -- they were. The outcome of > is that the first number is not less than the second, so it is
  -- true for equal numbers; the other three are those of the integers.
  pub comparison-vm_execute :
      (atof : List ℕ → Real) (usable : ℕ → ℕ) (l : Location) (op : Comparator) (s e : ℕ) {a b : Ast}
      {m n : ℕ} (d : Arithmetic a m) (f : Arithmetic b n) (c : CompileContext Real)
      (xs : List Instruction) (vm : Vm Real)
      → IsSmall m
      → IsSmall n
      → Coded c.blocks c.current xs
      → c.rp + height d + height f + 2 < 256
      → c.rp + height d + height f + 2 < length vm.registers
      → (c.rp + 2) / 16 % 8 ≡ 0
      → HasTruths vm
      → vm.pc ≡ length xs
      → get_elem? vm.regions vm.region ≡ some (xs ++ compared_code op d f c.rp)
      → ((bs : List (CodeBlock Instruction)) × (compile_ast atof usable (compared l op s e a b) c
            ≡ ok (placed c.rp nord.Value.val_boolean, record c { blocks = bs }))
          × Coded bs c.current (xs ++ compared_code op d f c.rp))
        × ((fuel : ℕ) × (rs : List (Value Real)) × (vm_execute F env fuel vm
              ≡ ok (record vm { pc = vm.pc + length (compared_code op d f c.rp); registers = rs }))
            × (get_elem? rs c.rp ≡ some (Value.boolean (outcome op m n) true))
            × (take c.rp rs ≡ take c.rp vm.registers))
  comparison-vm_execute atof usable l op s e {m = m} {n = n} d f c xs vm sm sn coded room registers
        low truths start running =
      let ys = compared_code op d f c.rp in
      let (rs, reaches, result, below) =
        compared_code-Reaches op d f vm (xs ++ ys) c.rp running
          (subst (λ k. Stands (xs ++ ys) k ys) (sym start) (Stands-append_end xs ys)) truths room
          registers low sm sn in
      let (fuel, ran) = Reaches-vm_execute F env vm xs ys rs start running reaches in
      (compared_ok atof usable l op s e d f c xs coded room, (fuel, rs, ran, result, below))
