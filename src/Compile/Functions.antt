-- ===== src/Compile/Functions.antt =====
-- src/compiler/compile.c: the declaration of a function.
use nord.Prelude.{
  ℕ, zero, suc, ◌+◌, ◌-◌, ◌%◌, ◌^◌, Bool, true, false, none, some, List, [], ◌∷◌, ◌++◌, ltb, leb,
  ◌&&◌, if◌then◌else◌, get_elem?,
}
use nord.Prelude.Int.{pos}
use nord.Prelude.State.{pure, lift, ◌>>=◌, ◌>>◌, branch}
use nord.Prelude.Result.{Result, ok, fault, bind, out_of_bounds, indeterminate}
use nord.Memory.{memory_set}
use nord.Bytecode.{CodeBlock, code_collection_add_block}
use nord.Symbol.{Symbol, Name, symbol_map_set}
use nord.Syntax.{Ast, Asts, node, literal, nil, cons}
use nord.Value
use nord.Value.{Value, Address, FunctionDef, function_def_create}
use nord.Machine
use nord.Machine.{Instruction, Opcode, found}
use nord.Compile.{
  Compiler, get, modify, write2, block_at, new_block, remember, define, open_scope, close_scope,
  set_rp, placed, stored,
}
use nord.Compile.Literals.{Action, location_of}

-- `args->op.list.items[i]->op.literal.value`; another kind of node has another member there.
abbrev pub parameter_name : Ast → Result Name
parameter_name (node l (literal t value)) = stored value
parameter_name t = fault indeterminate

-- The names of the parameters, which are the registers from the register pointer on.
unfoldable pub define_parameters : {R : Type 0} → ℕ → ℕ → Asts → Compiler R (Unit {0})
define_parameters register i nil = pure tt
define_parameters register i (cons t ts) = do
  define_parameters register (i + 1) ts
  name ← lift (parameter_name t)
  define (record {
    name = some name;
    type = nord.Symbol.sym_var;
    location = record { kind = nord.Symbol.loc_register; address = register + i };
  })

-- `n` numbers from `first` on
abbrev pub count_from : ℕ → ℕ → List ℕ
count_from zero first = []
count_from (suc n) first = first ∷ count_from n (first + 1)

-- The array of the locals from one register to another, both included, and a 0 behind them. It is
-- allocated a byte short; `usable` gives the room of an allocation of the C library.
unfoldable pub locals_of : (ℕ → ℕ) → ℕ → ℕ → Result (List ℕ)
locals_of usable first last =
    let n = last - first + 1 in
    if ltb n (usable n) && leb first last
    then ok (count_from n first ++ 0 ∷ [])
    else fault out_of_bounds

-- A function that is stored in the memory is changed through its pointer.
unfoldable pub update : {R : Type 0} → ℕ → Value R → Compiler R (Unit {0})
update address v context =
    bind (memory_set Value.absent context.data_ (pos address) v)
      λ data_. ok (tt, record context { data_ = data_ })

-- The region of a block that is added to the binary's code.
unfoldable pub add_block : {R : Type 0} → ℕ → Compiler R ℕ
add_block block context =
    bind (code_collection_add_block context.collection block)
      λ collection. ok (collection.size - 1, record context { collection = collection })

-- A change of the current block and its region.
unfoldable pub enter_region : {R : Type 0} → ℕ → ℕ → Compiler R (Unit {0})
enter_region current cp = modify λ context. record context { cp = cp; current = current }

abbrev pub is_return : Opcode → Bool
is_return nord.Machine.op_return = true
is_return op = false

-- The last instruction of a block. An empty block has none to read.
abbrev pub last_opcode : CodeBlock Instruction → Result Opcode
last_opcode block =
    bind (found (get_elem? block.code ((block.size + (2 ^ 64 - 1)) % 2 ^ 64)))
      λ slot. bind (stored slot) λ i. ok i.opcode

-- `symbol_map_set(context->binary->symbols, symbol)`
unfoldable pub export : {R : Type 0} → Symbol → Compiler R (Unit {0})
export symbol context =
    bind (symbol_map_set context.exports symbol)
      λ exports. ok (tt, record context { exports = exports })

-- The body of a function and the return behind it.
unfoldable pub compile_fn_body : {R : Type 0} → Action R → Compiler R (Unit {0})
compile_fn_body body = do
  fn_result ← body
  end ← get
  block ← block_at end.current
  last ← lift (last_opcode block)
  branch (is_return last) (pure tt)
      (do location ← location_of fn_result; write2 nord.Machine.op_return location)

abbrev pub function_symbol : Name → ℕ → Symbol
function_symbol name place = record {
  name = some name;
  type = nord.Symbol.sym_fn;
  location = record { kind = nord.Symbol.loc_memory; address = place };
}

-- What is between the opening and the closing of the scope of a function: where it is stored.
unfoldable pub compile_function : {R : Type 0} → (ℕ → ℕ) → Name → ℕ → Asts → Action R → Compiler R ℕ
compile_function usable name nparams params body = do
  start ← get
  let nargs = nparams % 256
  let address : Address = record { region = start.cp; offset = 0 }
  place ← remember (function_def_create name address nargs none start.rp)
  define (function_symbol name place)
  define_parameters start.rp 0 params
  set_rp (start.rp + nparams)
  inner ← get
  locals ← lift (locals_of usable start.rp inner.rp)
  update place (function_def_create name address nargs (some locals) start.rp)
  compile_fn_body body
  pure place

-- `nparams` and `params` are those of the list of arguments.
unfoldable pub compile_fn_declaration :
    {R : Type 0} → (ℕ → ℕ) → Name → Bool → ℕ → Asts → Action R → Action R
compile_fn_declaration usable name exported nparams params body = do
  before ← get
  open_scope
  block ← new_block
  region ← add_block block
  enter_region block region
  place ← compile_function usable name nparams params body
  close_scope
  enter_region before.current before.cp
  define (function_symbol name place)
  set_rp before.rp
  branch exported (export (function_symbol name place)) (pure tt)
  pure (placed place nord.Value.val_function)
