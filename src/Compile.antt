-- ===== src/Compile.antt =====
-- src/compiler/compile.c: the compiler's context and what its functions do with it. The blocks of
-- code are shared by reference, so they stand in a store, and a reference is a position in it. What
-- a function compiles of a tree's children is an argument of it; `Compile.Program` closes the
-- recursion. The messages, and `name` and `listing`, which only they show, are left out.
pub mod Literals
pub mod Values
pub mod Calls
pub mod Functions
pub mod Control
pub mod ModuleName
pub mod Program
pub mod Constants
pub mod Lists
pub mod Frame
pub mod Keeps
pub mod Scopes
pub mod Preserves
pub mod Expressions
pub mod Arithmetic
pub mod Rounds
pub mod Comparisons
pub mod Computes
pub mod Decisions
pub mod Outcomes
use nord.Prelude.{
  ℕ, zero, suc, ◌+◌, ◌-◌, ◌*◌, ◌%◌, ◌^◌, Bool, true, false, Option, none, some, List, [], ◌∷◌, ◌++◌,
  length, get_elem?, set,
}
use nord.Prelude.Int.{pos}
use nord.Prelude.State.{State, pure, lift, fail, ◌>>=◌, ◌>>◌, branch, done}
use nord.Prelude.Result
use nord.Prelude.Result.{Result, ok, fault, bind, out_of_bounds, indeterminate, null_pointer}
use nord.Memory.{Memory, memory_set}
use nord.Bytecode.{CodeBlock, CodeCollection, code_block_create, code_block_write, code_block_merge}
use nord.Symbol.{
  Symbol, SymbolMap, Name, symbol_map_create, symbol_map_get, symbol_map_set, is_undef,
}
use nord.Value.{Value, ValueType, string_create}
use nord.Machine
use nord.Machine.{Instruction, Opcode, found}
use nord.Codegen.{instruction3}

-- The fields of the binary are in the context: `data_`, `collection` and `exports` are its data,
-- its code and its symbols. `parents` are the scopes above `symbols`.
pub record CompileContext (R : Type 0) : Type 0 where
  pub blocks : List (CodeBlock Instruction)
  pub collection : CodeCollection ℕ
  pub data_ : Memory (Value R)
  pub exports : SymbolMap
  pub symbols : SymbolMap
  pub parents : List SymbolMap
  pub current : ℕ
  pub rp : ℕ
  pub mp : ℕ
  pub cp : ℕ
  pub member_context : Symbol

-- `compile_result_t`. What no statement stored is `none`, but a code of `NULL` is `none` too.
pub record Compiled : Type 0 where
  pub location : Option ℕ
  pub type : Option ValueType
  pub code : Option ℕ

-- a `compile_result_t` that was declared and not set
abbrev pub unset : Compiled
unset = record { location = none; type = none; code = none }

-- a result without code; the location is a byte
abbrev pub placed : ℕ → ValueType → Compiled
placed location type = record { location = some (location % 256); type = some type; code = none }

-- a read of a field
abbrev pub stored {ℓ} : {A : Type ℓ} → Option A → Result A
stored none = fault indeterminate
stored (some a) = ok a

abbrev pub Compiler {ℓ} : Type 0 → Type ℓ → Type ℓ
Compiler R A = State (CompileContext R) A

-- A set in the last scope of a chain.
unfoldable pub set_last : SymbolMap → List SymbolMap → Symbol → Result (SymbolMap × List SymbolMap)
set_last map [] symbol = bind (symbol_map_set map symbol) λ map'. ok (map', [])
set_last map (parent ∷ above) symbol = bind (set_last parent above symbol) λ r. ok (map, r.0 ∷ r.1)

-- the parent of a scope, and the scopes above it
abbrev pub scopes_above : List SymbolMap → Result (SymbolMap × List SymbolMap)
scopes_above [] = fault null_pointer
scopes_above (parent ∷ above) = ok (parent, above)

module _ {R : Type 0} where
  abbrev pub get : Compiler R (CompileContext R)
  get context = ok (context, context)

  abbrev pub modify : (CompileContext R → CompileContext R) → Compiler R (Unit {0})
  modify f context = ok (tt, f context)

  -- a change of the current block
  unfoldable pub edit :
      (CodeBlock Instruction → Result (CodeBlock Instruction)) → Compiler R (Unit {0})
  edit f context =
      bind (bind (found (get_elem? context.blocks context.current)) f)
        λ block. ok (tt, record context { blocks = set context.blocks context.current block })

  -- `code_block_write(context->current_code_block, i)`
  abbrev pub write : Instruction → Compiler R (Unit {0})
  write i = edit λ block. code_block_write block i

  -- `INSTRUCTION2` of an opcode and an operand
  abbrev pub write2 : Opcode → ℕ → Compiler R (Unit {0})
  write2 op arg = write (instruction3 op 0 arg)

  abbrev pub write3 : Opcode → ℕ → ℕ → Compiler R (Unit {0})
  write3 op arg1 arg2 = write (instruction3 op arg1 arg2)

  -- `code_block_merge(context->current_code_block, from)`
  abbrev pub merge : CodeBlock Instruction → Compiler R (Unit {0})
  merge from = edit λ block. code_block_merge block from

  -- the block of a reference
  abbrev pub block_at : ℕ → Compiler R (CodeBlock Instruction)
  block_at i context = lift (found (get_elem? context.blocks i)) context

  -- `code_block_create`: the new block is the last one of the store.
  unfoldable pub new_block : Compiler R ℕ
  new_block context =
      ok (
        length context.blocks,
        record context { blocks = context.blocks ++ code_block_create ∷ [] },
      )

  -- `context->current_code_block = block`
  unfoldable pub enter : ℕ → Compiler R (Unit {0})
  enter block = modify λ context. record context { current = block }

  -- `memory_set(context->binary->data, context->mp++, v)`, and where it was stored
  unfoldable pub remember : Value R → Compiler R ℕ
  remember v context =
      bind (memory_set Value.absent context.data_ (pos context.mp) v)
        λ data_. ok (context.mp, record context { data_ = data_; mp = context.mp + 1 })

  abbrev pub look_up : Name → Compiler R Symbol
  look_up name context = lift (symbol_map_get context.symbols context.parents name) context

  -- `symbol_map_set(context->symbols, symbol)`
  unfoldable pub define : Symbol → Compiler R (Unit {0})
  define symbol context =
      bind (symbol_map_set context.symbols symbol)
        λ symbols. ok (tt, record context { symbols = symbols })

  -- a set in the outermost scope
  unfoldable pub define_global : Symbol → Compiler R (Unit {0})
  define_global symbol context =
      bind (set_last context.symbols context.parents symbol)
        λ r. ok (tt, record context { symbols = r.0; parents = r.1 })

  -- a new scope inside the current one
  unfoldable pub open_scope : Compiler R (Unit {0})
  open_scope = modify λ context. record context {
    symbols = symbol_map_create;
    parents = context.symbols ∷ context.parents;
  }

  -- `context->symbols = context->symbols->parent`
  unfoldable pub close_scope : Compiler R (Unit {0})
  close_scope context =
      bind (scopes_above context.parents)
        λ r. ok (tt, record context { symbols = r.0; parents = r.1 })

  -- the register pointer is a byte
  unfoldable pub set_rp : ℕ → Compiler R (Unit {0})
  set_rp rp = modify λ context. record context { rp = rp % 256 }

  unfoldable pub next_rp : Compiler R (Unit {0})
  next_rp = modify λ context. record context { rp = (context.rp + 1) % 256 }

  -- the result at the register pointer
  abbrev pub here : ValueType → Compiler R Compiled
  here type context = ok (placed context.rp type, context)

  -- the pushes of the first `n` arguments, the last one first
  unfoldable pub push_args : ℕ → List ℕ → Compiler R (Unit {0})
  push_args zero args = done
  push_args (suc n) args = do
    arg ← lift (found (get_elem? args n))
    write2 nord.Machine.op_push arg
    push_args n args
