-- ===== src/Compile/Calls.antt =====
-- src/compiler/compile.c: the calls of built-in functions and of functions in the memory.
use nord.Prelude.{
  ℕ, zero, suc, ◌+◌, ◌%◌, Option, none, some, List, [], ◌∷◌, ltb, ◌==◌, length, get_elem?,
}
use nord.Prelude.Int.{pos}
use nord.Prelude.State.{pure, lift, fail, ◌>>=◌, ◌>>◌, branch, check}
use nord.Prelude.Result.{Result, ok, fault, exits, indeterminate, null_pointer}
use nord.Memory.{memory_get}
use nord.Symbol.{Symbol, Name, LocType}
use nord.Value
use nord.Value.{Value, FunctionDef}
use nord.Machine
use nord.Machine.{found}
use nord.Compile.{Compiler, get, write2, write3, look_up, set_rp, next_rp, here, placed}
use nord.Compile.Literals.{Action, location_of, write_out_builtin, is_memory}
use nord.Compile.Values.{compile_values}

-- The arguments are `none` where the call has no list. Without a list, a pointer that was never set is
-- freed after the call is written.
unfoldable pub compile_fn_call_builtin : {R : Type 0} → Name → Option (List (Action R)) → Action R
compile_fn_call_builtin name none = do result ← write_out_builtin name 0 []; fail indeterminate
compile_fn_call_builtin name (some args) = do
  registers ← compile_values args
  write_out_builtin name (length args % 256) registers

-- `(function_t *)value.contents.object`
abbrev pub function_of : {R : Type 0} → Value R → Result FunctionDef
function_of (Value.function def) = ok def
function_of v = fault indeterminate

-- `function->locals[i]`
abbrev pub local_at : Option (List ℕ) → ℕ → Result ℕ
local_at none i = fault null_pointer
local_at (some locals) i = found (get_elem? locals i)

-- The register of an argument that the caller saves.
abbrev pub saved_register : FunctionDef → ℕ → Result ℕ
saved_register def i = elim def.locals [
  | none ↦ ok (def.low_reg + i)
  | some locals ↦ found (get_elem? locals i)
]

-- The loop that saves what conflicts, with `n` rounds left at index `i`.
unfoldable pub save_conflicts : {R : Type 0} → FunctionDef → ℕ → ℕ → Compiler R (Unit {0})
save_conflicts def zero i = pure tt
save_conflicts def (suc n) i = do
  register ← lift (saved_register def i)
  context ← get
  branch (ltb register context.rp) (write2 nord.Machine.op_push register) (pure tt)
  save_conflicts def n (i + 1)

-- The loop over the arguments from index `i` on, each to its register.
unfoldable pub compile_args :
    {R : Type 0} → FunctionDef → ℕ → List (Action R) → Compiler R (Unit {0})
compile_args def i [] = pure tt
compile_args def i (action ∷ actions) = do
  arg ← action
  location ← location_of arg
  local ← lift (local_at def.locals i)
  branch (location == local) (pure tt) (write3 nord.Machine.op_move local location)
  next_rp
  compile_args def (i + 1) actions

-- The test of the number of arguments, and the arguments.
abbrev pub native_args :
    {R : Type 0} → FunctionDef → Option (List (Action R)) → Compiler R (Unit {0})
native_args def none = branch (ltb 0 def.nargs) (fail exits) (pure tt)
native_args def (some args) =
    branch (length args == def.nargs) (compile_args def 0 args) (fail exits)

-- The loop that restores what was saved, down from index `n - 1`.
unfoldable pub restore_conflicts : {R : Type 0} → FunctionDef → ℕ → Compiler R (Unit {0})
restore_conflicts def zero = pure tt
restore_conflicts def (suc n) = do
  context ← get
  branch (ltb (def.low_reg + n) context.rp) (write2 nord.Machine.op_pop (def.low_reg + n)) (pure tt)
  restore_conflicts def n

unfoldable pub compile_fn_call_native : {R : Type 0} → Name → Option (List (Action R)) → Action R
compile_fn_call_native name args = do
  symbol ← look_up name
  check (is_memory symbol.location.kind)
  context ← get
  v ← lift (memory_get Value.absent context.data_ (pos symbol.location.address))
  def ← lift (function_of v)
  save_conflicts def def.nargs 0
  native_args def args
  write2 nord.Machine.op_call symbol.location.address
  set_rp context.rp
  write2 nord.Machine.op_pop context.rp
  restore_conflicts def def.nargs
  here nord.Value.val_unknown

-- The `switch` over the location of the name.
abbrev pub call_case : {R : Type 0} → LocType → Name → Option (List (Action R)) → Action R
call_case nord.Symbol.loc_memory name args = compile_fn_call_native name args
call_case nord.Symbol.loc_builtin name args = compile_fn_call_builtin name args
call_case nord.Symbol.loc_undef name args = compile_fn_call_builtin name args
call_case kind name args = pure (placed 0 nord.Value.val_absent)

unfoldable pub compile_fn_call : {R : Type 0} → Name → Option (List (Action R)) → Action R
compile_fn_call name args = do symbol ← look_up name; call_case symbol.location.kind name args
