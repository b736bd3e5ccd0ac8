-- ===== src/Codegen/Blocks.antt =====
-- src/compiler/compile.c: the block that `compile_binary_comparison` writes.
use nord.Prelude.{ℕ, ◌≡◌, some, List, [], ◌∷◌}
use nord.Prelude.Result.{ok}
use nord.Bytecode.{CodeBlock, code_block_create}
use nord.Bytecode.Growth.{IsBlock, code_block_create-IsBlock, code_block_write-IsBlock}
use nord.Value.{val_boolean}
use nord.Machine.{Opcode, Instruction}
use nord.Codegen.{instruction3, instruction4, compile_binary_comparison}

-- False into the base register, the comparison, and the store of true that it may skip.
abbrev pub comparison_code : Opcode → ℕ → ℕ → ℕ → ℕ → List Instruction
comparison_code op base condition left right =
    instruction3 nord.Machine.op_load base 0
    ∷ instruction4 op condition left right
    ∷ instruction3 nord.Machine.op_load base 1
    ∷ []

-- The code of a comparison is compiled without leaving the storage of its block, whose list is the
-- load of false, the comparison and the load of true.
pub compile_binary_comparison_lem :
    (op : Opcode) (base condition left right : ℕ)
    → (block : CodeBlock Instruction) × (compile_binary_comparison op base condition left right
        ≡ ok (record { location = base; type = val_boolean; code = some block }))
      × IsBlock block (comparison_code op base condition left right)
unfolding compile_binary_comparison
compile_binary_comparison_lem op base condition left right =
    let i0 = instruction3 nord.Machine.op_load base 0 in
    let i1 = instruction4 op condition left right in
    let i2 = instruction3 nord.Machine.op_load base 1 in
    let (b0, r0, h0) = code_block_write-IsBlock code_block_create [] i0 code_block_create-IsBlock in
    let (b1, r1, h1) = code_block_write-IsBlock b0 (i0 ∷ []) i1 h0 in
    let (b2, r2, h2) = code_block_write-IsBlock b1 (i0 ∷ i1 ∷ []) i2 h1 in (b2, rw (r0, r1, r2), h2)
