-- ===== src/Compile/Arithmetic.antt =====
-- src/compiler/compile.c: how integer expressions are compiled to their code.
use nord.Prelude.{
  ℕ, zero, suc, ◌+◌, ◌%◌, ◌<◌, ◌≡◌, refl, ap, sym, ◌∙◌, none, some, List, [], ◌∷◌, ◌++◌, arith,
  get_elem?, set,
}
use mathlib.Core.List.{append_assoc}
use mathlib.Core.Path.{subst}
use nord.Prelude.State.{continue, branch, lift}
use nord.Prelude.Result.{Result, ok, bind}
use nord.Bytecode.{CodeBlock, code_block_write}
use nord.Bytecode.Growth.{code_block_write-IsBlock}
use nord.Token.{TokenType, has_type}
use nord.Syntax.{Ast}
use nord.Value
use nord.Value.{Value, arithmetic_cast}
use nord.Machine
use nord.Machine.{Instruction, Opcode}
use nord.Codegen.{instruction3, instruction4}
use nord.Compile.{Compiler, CompileContext, edit, write, placed, next_rp, set_rp}
use nord.Compile.Literals.{Action, atoi, compile_literal}
use nord.Compile.Values.{compile_unary, compile_binary, binary_case}
use nord.Compile.Program.{compile_ast}
use nord.Compile.Expressions.{
  Coded, Operator, token_of, opcode_of, Arithmetic, height, code, plus, minus, times, number,
  grouped, negation, operation,
}

pub get_elem?-set_present :
    {A : Type 0} (xs : List A) (i : ℕ) {a : A} (b : A)
    → get_elem? xs i ≡ some a
    → get_elem? (set xs i b) i ≡ some b
get_elem?-set_present [] i b h = cc
get_elem?-set_present (x ∷ xs) zero b h = refl
get_elem?-set_present (x ∷ xs) (suc i) b h = get_elem?-set_present xs i b h

module _ {R : Type 0} where
  pub continue_ok :
      {A B : Type 0} {m : Result (A × CompileContext R)} {a : A} {c : CompileContext R}
      (next : A → Compiler R B)
      → m ≡ ok (a, c)
      → continue m next ≡ next a c
  unfolding continue
  continue_ok next e = ap (λ r. continue r next) e

  -- A write succeeds, and appends to the list.
  pub write_lem :
      (c : CompileContext R) (xs : List Instruction) (i : Instruction)
      → Coded c.blocks c.current xs
      → (bs : List (CodeBlock Instruction)) × (write i c ≡ ok (tt, record c { blocks = bs }))
        × Coded bs c.current (xs ++ i ∷ [])
  unfolding edit
  write_lem c xs i d =
      let (b, ran, listed) = code_block_write-IsBlock d.block xs i d.listed in
      let change : Result (CodeBlock Instruction) → Result (Unit {0} × CompileContext R) =
        λ r. bind r λ k. ok (tt, record c { blocks = set c.blocks c.current k }) in
      (
        set c.blocks c.current b,
        (ap (λ r. change (bind (nord.Machine.found r) (λ k. code_block_write k i))) d.stored
            ∙ ap change ran),
        record {
          block = b;
          stored = get_elem?-set_present c.blocks c.current b d.stored;
          listed = listed;
        },
      )

  -- A number is loaded into the register pointer.
  literal_ok :
      (atof : List ℕ → R) (text : List ℕ) (n : ℕ) (c : CompileContext R)
      (bs : List (CodeBlock Instruction))
      → atoi text ≡ ok n
      → write (instruction3 nord.Machine.op_loadv c.rp n) c ≡ ok (tt, record c { blocks = bs })
      → compile_literal atof TokenType.number text c
        ≡ ok (placed c.rp nord.Value.val_int, record c { blocks = bs })
  unfolding compile_literal lift continue
  literal_ok atof text n c bs e w = rw e (continue_ok _ w)

  -- The negation of a result that is an integer.
  unary_ok :
      (operand : Action R) (r : ℕ) (c c₁ : CompileContext R) (bs : List (CodeBlock Instruction))
      → operand c ≡ ok (placed r nord.Value.val_int, c₁)
      → write (instruction3 nord.Machine.op_negate c₁.rp (r % 256)) c₁
        ≡ ok (tt, record c₁ { blocks = bs })
      → compile_unary TokenType.minus operand c
        ≡ ok (
          record { location = some c₁.rp; type = some nord.Value.val_int; code = none },
          record c₁ { blocks = bs },
        )
  unfolding compile_unary lift continue
  unary_ok operand r c c₁ bs p w = continue_ok _ p ∙ continue_ok _ w

  -- An operation on two results that are integers.
  case_ok :
      (op : Operator) (l r : ℕ) (c : CompileContext R) (bs : List (CodeBlock Instruction))
      → write (instruction4 (opcode_of op) c.rp (l % 256) (r % 256)) c
        ≡ ok (tt, record c { blocks = bs })
      → binary_case (token_of op) (placed l nord.Value.val_int) (placed r nord.Value.val_int) c
        ≡ ok (placed c.rp nord.Value.val_int, record c { blocks = bs })
  unfolding binary_case lift continue arithmetic_cast
  case_ok plus l r c bs w = continue_ok _ w
  case_ok minus l r c bs w = continue_ok _ w
  case_ok times l r c bs w = continue_ok _ w

  -- A binary node with its operator, its operands one register apart.
  binary_ok :
      (op : Operator) (s e : ℕ) (left right : Ast) (first second : Action R) (l r : ℕ)
      (c c₁ c₂ : CompileContext R) (bs : List (CodeBlock Instruction))
      → first c ≡ ok (placed l nord.Value.val_int, c₁)
      → second (record c₁ { rp = (c₁.rp + 1) % 256 }) ≡ ok (placed r nord.Value.val_int, c₂)
      → write
          (instruction4 (opcode_of op) ((c₂.rp + 255) % 256) (l % 256) (r % 256))
          (record c₂ { rp = (c₂.rp + 255) % 256 })
        ≡ ok (tt, record c₂ { rp = (c₂.rp + 255) % 256; blocks = bs })
      → compile_binary (record { type = token_of op; start = s; end = e }) left right first second c
        ≡ ok (
          placed ((c₂.rp + 255) % 256) nord.Value.val_int,
          record c₂ { rp = (c₂.rp + 255) % 256; blocks = bs },
        )
  unfolding compile_binary next_rp set_rp lift continue branch has_type
  binary_ok plus s e left right first second l r c c₁ c₂ bs p q w =
      continue_ok _ p ∙ continue_ok _ q ∙ case_ok plus l r _ bs w
  binary_ok minus s e left right first second l r c c₁ c₂ bs p q w =
      continue_ok _ p ∙ continue_ok _ q ∙ case_ok minus l r _ bs w
  binary_ok times s e left right first second l r c c₁ c₂ bs p q w =
      continue_ok _ p ∙ continue_ok _ q ∙ case_ok times l r _ bs w

  -- The registers of an operation, with their arithmetic on bytes done.
  write_at :
      (op : Opcode) (c : CompileContext R) (m : ℕ)
      → m + 1 < 256
      → write
          (instruction4 op ((m + 1 + 255) % 256) (m % 256) ((m + 1) % 256))
          (record c { rp = (m + 1 + 255) % 256 })
        ≡ write (instruction4 op m m (m + 1)) (record c { rp = m })
  write_at op c m h =
      let top : (m + 1 + 255) % 256 ≡ m = omega arith in
      let low : m % 256 ≡ m = omega arith in
      let high : (m + 1) % 256 ≡ m + 1 = omega arith in
      ap (λ n. write (instruction4 op n (m % 256) ((m + 1) % 256)) (record c { rp = n })) top
      ∙ ap (λ n. write (instruction4 op m n ((m + 1) % 256)) (record c { rp = m })) low
      ∙ ap (λ n. write (instruction4 op m m n) (record c { rp = m })) high

  -- An integer expression is compiled to its code, behind what is in the block, and only the blocks
  -- of the context change.
  pub arithmetic_ok :
      (atof : List ℕ → R) (usable : ℕ → ℕ) {t : Ast} {v : ℕ} (d : Arithmetic t v)
      (c : CompileContext R) (xs : List Instruction)
      → Coded c.blocks c.current xs
      → c.rp + height d < 256
      → (bs : List (CodeBlock Instruction)) × (compile_ast atof usable t c
          ≡ ok (placed c.rp nord.Value.val_int, record c { blocks = bs }))
        × Coded bs c.current (xs ++ code d c.rp)
  unfolding compile_ast code height lift continue
  arithmetic_ok atof usable (number {n = n} {text = text} e h) c xs k room =
      let (bs, ran, after) = write_lem c xs (instruction3 nord.Machine.op_loadv c.rp n) k in
      (bs, literal_ok atof text n c bs e ran, after)
  arithmetic_ok atof usable (grouped d) c xs k room = arithmetic_ok atof usable d c xs k room
  arithmetic_ok atof usable (negation {t = t} d) c xs k room =
      let (bs, first, k₁) = arithmetic_ok atof usable d c xs k room in
      let (bs', ran, k₂) =
        write_lem (record c { blocks = bs }) _ (instruction3 nord.Machine.op_negate c.rp c.rp) k₁ in
      let low : c.rp % 256 ≡ c.rp = omega arith in
      (
        bs',
        unary_ok (compile_ast atof usable t) c.rp c (record c { blocks = bs }) bs' first
              (ap
                  (λ n.
                    write (instruction3 nord.Machine.op_negate c.rp n) (record c { blocks = bs }))
                  low
                ∙ ran)
            ∙ ap
                (λ n. ok (
                  record { location = some n; type = some nord.Value.val_int; code = none },
                  record c { blocks = bs' },
                ))
                (sym low),
        subst (Coded bs' c.current) (append_assoc xs _ _) k₂,
      )
  arithmetic_ok atof usable (operation {s = s} {e = e} {a = a} {b = b} op d f) c xs k room =
      let (bs, first, k₁) = arithmetic_ok atof usable d c xs k (omega arith) in
      let c₁ : CompileContext R = record c { blocks = bs; rp = c.rp + 1 } in
      let (bs', second, k₂) = arithmetic_ok atof usable f c₁ (xs ++ code d c.rp) k₁ (omega arith) in
      let c₂ : CompileContext R = record c { blocks = bs'; rp = c.rp + 1 } in
      let i = instruction4 (opcode_of op) c.rp c.rp (c.rp + 1) in
      let last : List Instruction = i ∷ [] in
      let (bs'', ran, k₃) = write_lem (record c { blocks = bs' }) _ i k₂ in
      let high : (c.rp + 1) % 256 ≡ c.rp + 1 = omega arith in
      let back : (c.rp + 1 + 255) % 256 ≡ c.rp = omega arith in
      (
        bs'',
        binary_ok op s e a b (compile_ast atof usable a) (compile_ast atof usable b) c.rp (c.rp + 1)
              c (record c { blocks = bs }) c₂ bs'' first
              (ap (λ n. compile_ast atof usable b (record c { blocks = bs; rp = n })) high ∙ second)
              (write_at (opcode_of op) c₂ c.rp (omega arith)
                ∙ ran
                ∙ ap (λ n. ok (tt, record c { blocks = bs''; rp = n })) (sym back))
            ∙ ap (λ n. ok (placed n nord.Value.val_int, record c { blocks = bs''; rp = n })) back,
        subst (Coded bs'' c.current)
            (ap (λ ys. ys ++ last) (append_assoc xs _ _) ∙ append_assoc xs _ last) k₃,
      )
