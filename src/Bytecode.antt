-- ===== src/Bytecode.antt =====
-- src/machine/bytecode.c: code blocks and the collection of the code regions of a binary.
-- Both are growable arrays; a slot that was not stored to is `none`. The element type is a
-- parameter: an instruction for a block, a reference to a block for a collection.
pub mod Growth
use nord.Prelude.{
  ℕ, zero, suc, ◌+◌, ◌-◌, ◌*◌, Option, none, some, List, [], ◌++◌, ltb, leb, ◌==◌, if◌then◌else◌,
  length, get_elem?, set, replicate,
}
use nord.Prelude.Result.{Result, ok, fault, out_of_bounds, indeterminate, ◌>>=◌}

pub record CodeBlock {ℓ} (A : Type ℓ) : Type ℓ where
  pub size : ℕ
  pub capacity : ℕ
  pub code : List (Option A)

-- A `code_collection_t` has the same fields, with `blocks` for `code`.
abbrev pub CodeCollection {ℓ} : Type ℓ → Type ℓ
CodeCollection B = CodeBlock B

module _ {ℓ} {A : Type ℓ} where
  -- `calloc` of the whole struct
  unfoldable pub code_block_create : CodeBlock A
  code_block_create = record { size = 0; capacity = 0; code = [] }

  -- the first `if` of `code_block_write`
  unfoldable pub allocate_block : CodeBlock A → CodeBlock A
  allocate_block block =
      if block.capacity == 0 then record block { capacity = 2; code = replicate 2 none } else block

  -- the second `if`
  unfoldable pub grow_block : CodeBlock A → CodeBlock A
  grow_block block =
      if leb (block.capacity - 1) block.size
      then record block {
        capacity = block.capacity * 2;
        code = block.code ++ replicate block.capacity none;
      }
      else block

  -- the store and the increment
  unfoldable pub store_block : CodeBlock A → A → Result (CodeBlock A)
  store_block block val =
      if ltb block.size (length block.code)
      then ok (record block { code = set block.code block.size (some val); size = block.size + 1 })
      else fault out_of_bounds

  unfoldable pub code_block_write : CodeBlock A → A → Result (CodeBlock A)
  unfolding allocate_block grow_block store_block
  code_block_write block val = store_block (grow_block (allocate_block block)) val

  slot : Option (Option A) → Result A
  slot none = fault out_of_bounds
  slot (some none) = fault indeterminate
  slot (some (some val)) = ok val

  -- the loop of `code_block_merge`, with `n` rounds left at index `i`
  unfoldable pub merge_from : ℕ → ℕ → CodeBlock A → CodeBlock A → Result (CodeBlock A)
  unfolding slot
  merge_from zero i into from = ok into
  merge_from (suc n) i into from = do
    val ← slot (get_elem? from.code i)
    into' ← code_block_write into val
    merge_from n (i + 1) into' from

  unfoldable pub code_block_merge : CodeBlock A → CodeBlock A → Result (CodeBlock A)
  unfolding merge_from
  code_block_merge into from = merge_from from.size 0 into from

module _ {ℓ} {B : Type ℓ} where
  unfoldable pub code_collection_create : CodeCollection B
  unfolding code_block_create
  code_collection_create = code_block_create

  -- The same three steps as `code_block_write`, on `blocks`.
  unfoldable pub code_collection_add_block : CodeCollection B → B → Result (CodeCollection B)
  unfolding code_block_write
  code_collection_add_block collection block = code_block_write collection block
