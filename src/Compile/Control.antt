-- ===== src/Compile/Control.antt =====
-- src/compiler/compile.c: statement lists, conditionals, loops and imports.
use nord.Prelude.{ℕ, ◌+◌, ◌-◌, ◌%◌, ◌^◌, Option, none, some, List, [], ◌∷◌, ◌==◌, if◌then◌else◌}
use nord.Prelude.State.{pure, lift, ◌>>=◌, ◌>>◌, branch}
use nord.Bytecode.{CodeBlock}
use nord.Symbol.{Symbol, Name}
use nord.Value
use nord.Value.{Value, string_create}
use nord.Machine
use nord.Machine.{Instruction}
use nord.Codegen.{instruction4}
use nord.Compile.{
  Compiler, Compiled, get, enter, write, write2, write3, merge, block_at, new_block, remember,
  define, open_scope, close_scope, set_rp, next_rp, here, unset, stored,
}
use nord.Compile.Literals.{Action, location_of, write_out_builtin}

-- The statements one after the other; the result is that of the last one.
unfoldable pub compile_statements : {R : Type 0} → List (Action R) → Compiled → Action R
compile_statements [] result = pure result
compile_statements (action ∷ actions) result = do next ← action; compile_statements actions next

-- The code goes to a new block, which is not one of the binary's; it is part of the result.
unfoldable pub compile_statement_list : {R : Type 0} → List (Action R) → Action R
compile_statement_list actions = do
  open_scope
  before ← get
  inner ← new_block
  enter inner
  result ← compile_statements actions unset
  enter before.current
  close_scope
  pure (record result { code = some inner })

-- the block of a result
abbrev pub code_of : {R : Type 0} → Compiled → Compiler R (CodeBlock Instruction)
code_of result = lift (stored result.code) >>= λ i. block_at i

unfoldable pub compile_if_statement : {R : Type 0} → Action R → List (Action R) → Action R
compile_if_statement condition body = do
  before ← get
  if_condition ← condition
  if_body ← compile_statement_list body
  location ← lift (stored if_body.location)
  after ← get
  branch (location == after.rp) next_rp (pure tt)
  code ← code_of if_body
  c ← get
  write3 nord.Machine.op_loadv c.rp (code.size + 1)
  next_rp
  d ← get
  write3 nord.Machine.op_load d.rp 1
  tested ← location_of if_condition
  write (instruction4 nord.Machine.op_equal 0 d.rp tested)
  write2 nord.Machine.op_jmp ((d.rp + (2 ^ 16 - 1)) % 2 ^ 16)
  set_rp before.rp
  merge code
  here nord.Value.val_unknown

-- The variable of a loop, if it has one.
abbrev pub define_variable : {R : Type 0} → Option Name → ℕ → Compiler R (Unit {0})
define_variable none register = pure tt
define_variable (some name) register = define (record {
  name = some name;
  type = nord.Symbol.sym_var;
  location = record { kind = nord.Symbol.loc_register; address = register };
})

-- `n * -1` of a `size_t`, in the 16 bits of an operand
abbrev pub back : ℕ → ℕ
back n = (2 ^ 64 - n % 2 ^ 64) % 2 ^ 16

-- What is between the opening and the closing of the scope of a loop.
unfoldable pub compile_loop :
    {R : Type 0} → Option Name → ℕ → List (Action R) → Compiler R (Unit {0})
compile_loop name iterator body = do
  a ← get
  next_rp
  b ← get
  next_rp
  write2 nord.Machine.op_nil b.rp
  define_variable name a.rp
  for_body ← compile_statement_list body
  write (instruction4 nord.Machine.op_deref a.rp iterator 1)
  code ← code_of for_body
  c ← get
  write3 nord.Machine.op_loadv c.rp (code.size + 3)
  write (instruction4 nord.Machine.op_equal 1 a.rp b.rp)
  write2 nord.Machine.op_jmp c.rp
  merge code
  write3 nord.Machine.op_loadv c.rp (back (code.size + 5))
  write2 nord.Machine.op_jmp c.rp
  set_rp (c.rp + 254)

unfoldable pub compile_for_statement :
    {R : Type 0} → Option Name → Action R → List (Action R) → Action R
compile_for_statement name iterable body = do
  collection ← iterable
  over ← location_of collection
  iter_result ← write_out_builtin (b'i' ∷ b't' ∷ b'e' ∷ b'r' ∷ []) 1 (over ∷ [])
  iterator ← location_of iter_result
  next_rp
  open_scope
  compile_loop name iterator body
  close_scope
  here nord.Value.val_unknown

-- src/lang/module.c: what follows the last slash of a path, or the path.
abbrev pub after_slash : List ℕ → Option (List ℕ)
after_slash [] = none
after_slash (c ∷ cs) = elim (after_slash cs) [
  | some rest ↦ some rest
  | none ↦ if c == b'/' then some cs else none
]

unfoldable pub symbol_name_for_module_path : List ℕ → Name
symbol_name_for_module_path path = elim (after_slash path) [ none ↦ path | some rest ↦ rest ]

unfoldable pub compile_module : {R : Type 0} → Name → Action R
compile_module name = do
  address ← remember (string_create name)
  define (record {
    name = some (symbol_name_for_module_path name);
    type = nord.Symbol.sym_none;
    location = record { kind = nord.Symbol.loc_memory; address = address };
  })
  write2 nord.Machine.op_import address
  here nord.Value.val_module
