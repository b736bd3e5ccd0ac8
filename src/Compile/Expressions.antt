-- ===== src/Compile/Expressions.antt =====
-- src/compiler/compile.c: integer expressions, their values and the code that they are compiled to.
use nord.Prelude.{ℕ, ◌+◌, ◌^◌, ◌<◌, ◌≡◌, some, List, [], ◌∷◌, ◌++◌, get_elem?}
use nord.Prelude.Result.{ok}
use nord.Word.{wadd, wsub, wmul, wneg}
use nord.Bytecode.{CodeBlock}
use nord.Bytecode.Growth.{IsBlock}
use nord.Token.{TokenType}
use nord.Syntax.{Ast, Location, node, literal, group, unary, binary}
use nord.Machine
use nord.Machine.{Instruction, Opcode}
use nord.Codegen.{instruction3, instruction4}
use nord.Compile.Literals.{atoi}

-- The operators on integers, with their tokens, opcodes and results.
pub data Operator : Type 0 where
  plus minus times : Operator

abbrev pub token_of : Operator → TokenType
token_of plus = TokenType.plus
token_of minus = TokenType.minus
token_of times = TokenType.asterisk

abbrev pub opcode_of : Operator → Opcode
opcode_of plus = nord.Machine.op_add
opcode_of minus = nord.Machine.op_subtract
opcode_of times = nord.Machine.op_multiply

abbrev pub apply : Operator → ℕ → ℕ → ℕ
apply plus = wadd
apply minus = wsub
apply times = wmul

-- A tree of small numbers and operators, with its value as a 32-bit pattern.
pub data Arithmetic : Ast → ℕ → Type 0 where
  number :
      {l : Location} {s e n : ℕ} {text : List ℕ}
      → atoi text ≡ ok n
      → n < 2 ^ 15
      → Arithmetic
          (node l (literal (record { type = TokenType.number; start = s; end = e }) (some text)))
          n
  grouped : {l : Location} {t : Ast} {n : ℕ} → Arithmetic t n → Arithmetic (node l (group t)) n
  negation :
      {l : Location} {s e n : ℕ} {t : Ast}
      → Arithmetic t n
      → Arithmetic
          (node l (unary (record { type = TokenType.minus; start = s; end = e }) t))
          (wneg n)
  operation :
      {l : Location} {s e m n : ℕ} {a b : Ast} (op : Operator)
      → Arithmetic a m
      → Arithmetic b n
      → Arithmetic
          (node l (binary (record { type = token_of op; start = s; end = e }) a b))
          (apply op m n)

-- The registers that a tree needs beside the one of its result.
unfoldable pub height : {t : Ast} {v : ℕ} → Arithmetic t v → ℕ
height (number e h) = 0
height (grouped d) = height d
height (negation d) = height d
height (operation op d f) = height d + height f + 1

-- The code of a tree whose result goes to a register.
unfoldable pub code : {t : Ast} {v : ℕ} → Arithmetic t v → ℕ → List Instruction
code (number {n = n} e h) r = instruction3 nord.Machine.op_loadv r n ∷ []
code (grouped d) r = code d r
code (negation d) r = code d r ++ instruction3 nord.Machine.op_negate r r ∷ []
code (operation op d f) r =
    (code d r ++ code f (r + 1)) ++ instruction4 (opcode_of op) r r (r + 1) ∷ []

-- The block at an index of the store stands for a list of instructions.
pub record Coded (blocks : List (CodeBlock Instruction)) (current : ℕ) (xs : List Instruction)
    : Type 0 where
  pub block : CodeBlock Instruction
  pub stored : get_elem? blocks current ≡ some block
  pub listed : IsBlock block xs
