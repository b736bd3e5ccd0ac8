-- ===== src/Compile/Comparisons.antt =====
-- src/compiler/compile.c: how comparisons of integer expressions are compiled to their code.
use nord.Prelude.{
  ℕ, ◌+◌, ◌%◌, ◌<◌, ◌≡◌, refl, ap, ◌∙◌, Bool, not, List, [], ◌∷◌, ◌++◌, ◌==◌, arith, set,
}
use mathlib.Core.List.{append_assoc}
use mathlib.Core.Path.{subst}
use nord.Prelude.State.{continue, branch, lift}
use nord.Prelude.Result.{Result, ok, bind}
use nord.Word.{slt}
use nord.Bytecode.{CodeBlock, code_block_merge}
use nord.Bytecode.Growth.{IsBlock, code_block_merge-IsBlock}
use nord.Token.{TokenType, has_type}
use nord.Syntax.{Ast, Location, node, binary}
use nord.Value
use nord.Machine
use nord.Machine.{Instruction, Opcode}
use nord.Codegen.{instruction3}
use nord.Codegen.Blocks.{comparison_code, compile_binary_comparison_lem}
use nord.Compile.{CompileContext, edit, merge, placed, next_rp, set_rp}
use nord.Compile.Literals.{Action}
use nord.Compile.Values.{compile_binary, binary_case, comparison}
use nord.Compile.Program.{compile_ast}
use nord.Compile.Expressions.{Arithmetic, height, code, Coded}
use nord.Compile.Arithmetic.{continue_ok, write_lem, get_elem?-set_present, arithmetic_ok}

-- The comparisons of one instruction, with their tokens, opcodes and conditions.
pub data Comparator : Type 0 where
  equals differs less greater : Comparator

abbrev pub comparator_token : Comparator → TokenType
comparator_token equals = TokenType.equal_equal
comparator_token differs = TokenType.bang_equal
comparator_token less = TokenType.less
comparator_token greater = TokenType.greater

abbrev pub comparator_opcode : Comparator → Opcode
comparator_opcode equals = nord.Machine.op_equal
comparator_opcode differs = nord.Machine.op_equal
comparator_opcode less = nord.Machine.op_lessthan
comparator_opcode greater = nord.Machine.op_lessthan

abbrev pub condition_of : Comparator → ℕ
condition_of equals = 1
condition_of differs = 0
condition_of less = 1
condition_of greater = 0

-- What each of them tells of two signed numbers: `>` tells that the first is not less.
abbrev pub outcome : Comparator → ℕ → ℕ → Bool
outcome equals m n = m == n
outcome differs m n = not (m == n)
outcome less m n = slt m n
outcome greater m n = not (slt m n)

abbrev pub compared : Location → Comparator → ℕ → ℕ → Ast → Ast → Ast
compared l op s e a b =
    node l (binary (record { type = comparator_token op; start = s; end = e }) a b)

-- The comparison of the registers `r` and `r + 1`, with the outcome in `base` and then in `r`.
abbrev pub outcome_code : Comparator → ℕ → ℕ → List Instruction
outcome_code op r base =
    comparison_code (comparator_opcode op) base (condition_of op) r (r + 1)
    ++ instruction3 nord.Machine.op_move r base ∷ []

-- The code of a comparison of two expressions, with its outcome in the register `r`.
abbrev pub compared_code :
    {a b : Ast} {m n : ℕ} → Comparator → Arithmetic a m → Arithmetic b n → ℕ → List Instruction
compared_code op d f r = (code d r ++ code f (r + 1)) ++ outcome_code op r (r + 2)

module _ {R : Type 0} where
  -- A merge succeeds, and appends the list of the merged block.
  merge_lem :
      (c : CompileContext R) (xs ys : List Instruction) (from : CodeBlock Instruction)
      → Coded c.blocks c.current xs
      → IsBlock from ys
      → (bs : List (CodeBlock Instruction)) × (merge from c ≡ ok (tt, record c { blocks = bs }))
        × Coded bs c.current (xs ++ ys)
  unfolding edit
  merge_lem c xs ys from d listed =
      let (b, ran, after) = code_block_merge-IsBlock d.block from xs ys d.listed listed in
      let change : Result (CodeBlock Instruction) → Result (Unit {0} × CompileContext R) =
        λ r. bind r λ k. ok (tt, record c { blocks = set c.blocks c.current k }) in
      (
        set c.blocks c.current b,
        (ap (λ r. change (bind (nord.Machine.found r) (λ k. code_block_merge k from))) d.stored
            ∙ ap change ran),
        record {
          block = b;
          stored = get_elem?-set_present c.blocks c.current b d.stored;
          listed = after;
        },
      )

  -- A comparison is compiled, and its outcome moved to the register pointer.
  comparison_ok :
      (op : Opcode) (condition l r : ℕ) (c : CompileContext R) (xs : List Instruction)
      → Coded c.blocks c.current xs
      → let base = (c.rp + 2) % 256 in
        (bs : List (CodeBlock Instruction)) × (comparison op condition l r c
          ≡ ok (placed c.rp nord.Value.val_boolean, record c { blocks = bs }))
        × Coded bs c.current (
            xs
            ++ (comparison_code op base condition l r
                ++ instruction3 nord.Machine.op_move c.rp base ∷ []))
  unfolding continue lift
  comparison_ok op condition l r c xs d =
      let base = (c.rp + 2) % 256 in
      let (block, made, listed) = compile_binary_comparison_lem op base condition l r in
      let (bs, merged, k) = merge_lem c xs _ block d listed in
      let (bs', written, k') =
        write_lem (record c { blocks = bs }) _ (instruction3 nord.Machine.op_move c.rp base) k in
      (
        bs',
        rw made (continue_ok _ merged ∙ continue_ok _ written),
        subst (Coded bs' c.current) (append_assoc xs _ _) k',
      )

  -- The case of the operator, on two results that are integers.
  compared_case :
      (op : Comparator) (l r : ℕ) (c : CompileContext R)
      → binary_case
          (comparator_token op)
          (placed l nord.Value.val_int)
          (placed r nord.Value.val_int)
          c
        ≡ comparison (comparator_opcode op) (condition_of op) (l % 256) (r % 256) c
  unfolding binary_case lift continue
  compared_case equals l r c = refl
  compared_case differs l r c = refl
  compared_case less l r c = refl
  compared_case greater l r c = refl

  -- A binary node with a comparison, its operands one register apart.
  compared_binary :
      (op : Comparator) (s e : ℕ) (left right : Ast) (first second : Action R) (l r : ℕ)
      (c c₁ c₂ : CompileContext R)
      → first c ≡ ok (placed l nord.Value.val_int, c₁)
      → second (record c₁ { rp = (c₁.rp + 1) % 256 }) ≡ ok (placed r nord.Value.val_int, c₂)
      → compile_binary
          (record { type = comparator_token op; start = s; end = e })
          left
          right
          first
          second
          c
        ≡ comparison
            (comparator_opcode op)
            (condition_of op)
            (l % 256)
            (r % 256)
            (record c₂ { rp = (c₂.rp + 255) % 256 })
  unfolding compile_binary next_rp set_rp lift continue branch has_type
  compared_binary equals s e left right first second l r c c₁ c₂ p q =
      continue_ok _ p ∙ continue_ok _ q ∙ compared_case equals l r _
  compared_binary differs s e left right first second l r c c₁ c₂ p q =
      continue_ok _ p ∙ continue_ok _ q ∙ compared_case differs l r _
  compared_binary less s e left right first second l r c c₁ c₂ p q =
      continue_ok _ p ∙ continue_ok _ q ∙ compared_case less l r _
  compared_binary greater s e left right first second l r c c₁ c₂ p q =
      continue_ok _ p ∙ continue_ok _ q ∙ compared_case greater l r _

  -- The registers of a comparison, with their arithmetic on bytes done.
  comparison_at :
      (op : Opcode) (condition : ℕ) (c : CompileContext R) (m : ℕ)
      → m + 1 < 256
      → comparison op condition (m % 256) ((m + 1) % 256) (record c { rp = (m + 1 + 255) % 256 })
        ≡ comparison op condition m (m + 1) (record c { rp = m })
  comparison_at op condition c m h =
      let top : (m + 1 + 255) % 256 ≡ m = omega arith in
      let low : m % 256 ≡ m = omega arith in
      let high : (m + 1) % 256 ≡ m + 1 = omega arith in
      ap (λ n. comparison op condition (m % 256) ((m + 1) % 256) (record c { rp = n })) top
      ∙ ap (λ n. comparison op condition n ((m + 1) % 256) (record c { rp = m })) low
      ∙ ap (λ n. comparison op condition m n (record c { rp = m })) high

  -- A comparison of two expressions is compiled to its code, behind what is in the block.
  pub compared_ok :
      (atof : List ℕ → R) (usable : ℕ → ℕ) (l : Location) (op : Comparator) (s e : ℕ) {a b : Ast}
      {m n : ℕ} (d : Arithmetic a m) (f : Arithmetic b n) (c : CompileContext R)
      (xs : List Instruction)
      → Coded c.blocks c.current xs
      → c.rp + height d + height f + 2 < 256
      → (bs : List (CodeBlock Instruction)) × (compile_ast atof usable (compared l op s e a b) c
          ≡ ok (placed c.rp nord.Value.val_boolean, record c { blocks = bs }))
        × Coded bs c.current (xs ++ compared_code op d f c.rp)
  unfolding compile_ast
  compared_ok atof usable l op s e {a = a} {b = b} d f c xs k room =
      let (bs, first, k₁) = arithmetic_ok atof usable d c xs k (omega arith) in
      let c₁ : CompileContext R = record c { blocks = bs; rp = c.rp + 1 } in
      let (bs', second, k₂) = arithmetic_ok atof usable f c₁ (xs ++ code d c.rp) k₁ (omega arith) in
      let c₂ : CompileContext R = record c { blocks = bs'; rp = c.rp + 1 } in
      let (bs'', ran, k₃) =
        comparison_ok (comparator_opcode op) (condition_of op) c.rp (c.rp + 1)
          (record c { blocks = bs' }) _ k₂ in
      let high : (c.rp + 1) % 256 ≡ c.rp + 1 = omega arith in
      let base : (c.rp + 2) % 256 ≡ c.rp + 2 = omega arith in
      (
        bs'',
        compared_binary op s e a b (compile_ast atof usable a) (compile_ast atof usable b) c.rp
              (c.rp + 1) c (record c { blocks = bs }) c₂ first
              (ap (λ n. compile_ast atof usable b (record c { blocks = bs; rp = n })) high ∙ second)
            ∙ comparison_at (comparator_opcode op) (condition_of op) c₂ c.rp (omega arith)
            ∙ ran,
        subst
            (λ n.
              Coded bs'' c.current
                (xs ++ ((code d c.rp ++ code f (c.rp + 1)) ++ outcome_code op c.rp n)))
            base
            (subst (Coded bs'' c.current)
              (ap (λ ys. ys ++ outcome_code op c.rp ((c.rp + 2) % 256))
                  (append_assoc xs (code d c.rp) (code f (c.rp + 1)))
                ∙ append_assoc xs (code d c.rp ++ code f (c.rp + 1)) _)
              k₃),
      )
