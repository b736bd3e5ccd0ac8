-- ===== src/Codegen.antt =====
-- src/compiler/compile.c: the instruction macros and the code of a comparison. Operands are bytes,
-- and 16 bits wide in the second place of a pair.
pub mod Blocks
pub mod Comparison
use nord.Prelude.{ℕ, ◌+◌, ◌*◌, ◌/◌, ◌%◌, Option, none, some}
use nord.Prelude.Result.{Result, ok, ◌>>=◌}
use nord.Bytecode.{CodeBlock, code_block_create, code_block_write}
use nord.Value.{ValueType, val_boolean}
use nord.Machine.{Opcode, Instruction}

-- `INSTRUCTION4`
abbrev pub instruction4 : Opcode → ℕ → ℕ → ℕ → Instruction
instruction4 op arg1 arg2 arg3 = record {
  opcode = op;
  byte0 = arg1 % 256;
  byte1 = arg2 % 256;
  byte2 = arg3 % 256;
  byte3 = 0;
}

-- `INSTRUCTION3`
abbrev pub instruction3 : Opcode → ℕ → ℕ → Instruction
instruction3 op arg1 arg2 = record {
  opcode = op;
  byte0 = arg1 % 256;
  byte1 = 0;
  byte2 = arg2 % 256;
  byte3 = arg2 / 256 % 256;
}

-- `compile_result_t`
pub record CompileResult : Type 0 where
  pub location : ℕ
  pub type : ValueType
  pub code : Option (CodeBlock Instruction)

unfoldable pub compile_binary_comparison : Opcode → ℕ → ℕ → ℕ → ℕ → Result CompileResult
compile_binary_comparison opcode base condition left right = do
  b0 ← code_block_write code_block_create (instruction3 nord.Machine.op_load base 0)
  b1 ← code_block_write b0 (instruction4 opcode condition left right)
  b2 ← code_block_write b1 (instruction3 nord.Machine.op_load base 1)
  ok (record { location = base; type = val_boolean; code = some b2 })
