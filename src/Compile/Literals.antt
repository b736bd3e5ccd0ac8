-- ===== src/Compile/Literals.antt =====
-- src/compiler/compile.c, `compile_literal` and `write_out_builtin`: literals, identifiers, and the calls of
-- built-in functions.
use nord.Prelude.{
  ℕ, ◌+◌, ◌-◌, ◌*◌, ◌^◌, Bool, true, false, ◌&&◌, some, List, [], ◌∷◌, ltb, leb, if◌then◌else◌,
}
use nord.Prelude.State.{pure, lift, fail, ◌>>=◌, ◌>>◌, branch}
use nord.Prelude.Result.{Result, ok, fault, exits, indeterminate}
use nord.Token.{TokenType}
use nord.Symbol.{Symbol, Name, SymType, LocType, SymPointer, is_undef}
use nord.Value
use nord.Value.{Value, ValueType, string_create, same_type, arithmetic_cast}
use nord.Machine
use nord.Machine.{Instruction, Opcode}
use nord.Compile.{
  Compiler, Compiled, get, write2, write3, remember, look_up, define, define_global, next_rp, here,
  placed, stored, push_args,
}

-- What compiles a child.
abbrev pub Action : Type 0 → Type 0
Action R = Compiler R Compiled

-- the location of a result, where it was set
abbrev pub location_of : {R : Type 0} → Compiled → Compiler R ℕ
location_of result = lift (stored result.location)

abbrev pub type_of : {R : Type 0} → Compiled → Compiler R ValueType
type_of result = lift (stored result.type)

-- The symbol of a function, with a fresh entry for one that is not known.
abbrev pub builtin_symbol : {R : Type 0} → Name → Symbol → Compiler R Symbol
builtin_symbol name symbol =
    branch (is_undef symbol.location.kind)
      (do
        address ← remember (string_create name)
        let known : Symbol = record {
          name = some name;
          type = nord.Symbol.sym_fn;
          location = record { kind = nord.Symbol.loc_builtin; address = address };
        }
        define_global known
        pure known)
      (pure symbol)

-- `nargs` is a byte.
unfoldable pub write_out_builtin : {R : Type 0} → Name → ℕ → List ℕ → Compiler R Compiled
write_out_builtin name nargs args = do
  found ← look_up name
  symbol ← builtin_symbol name found
  push_args nargs args
  write3 nord.Machine.op_loadv 0 nargs
  write2 nord.Machine.op_call_dynamic symbol.location.address
  context ← get
  write2 nord.Machine.op_pop context.rp
  here nord.Value.val_unknown

-- `atoi` of a text: the number of its leading digits, where it is an `int`. The texts of number
-- tokens are digits alone.
abbrev digits_from : ℕ → List ℕ → ℕ
digits_from n [] = n
digits_from n (c ∷ cs) =
    let rest = digits_from (n * 10 + (c - b'0')) cs in if leb b'0' c && leb c b'9' then rest else n

unfoldable pub atoi : List ℕ → Result ℕ
atoi text = let n = digits_from 0 text in if ltb n (2 ^ 31) then ok n else fault indeterminate

-- A constant of the memory.
abbrev pub load_constant : {R : Type 0} → Value R → ValueType → Action R
load_constant v type = do
  address ← remember v
  context ← get
  write3 nord.Machine.op_load context.rp address
  here type

-- A variable that is in the memory is loaded, and has a register from then on.
abbrev pub load_variable : {R : Type 0} → Symbol → Action R
load_variable symbol = do
  context ← get
  write3 nord.Machine.op_load context.rp symbol.location.address
  next_rp
  define (record symbol {
    location = record { kind = nord.Symbol.loc_register; address = context.rp };
  })
  pure (placed context.rp nord.Value.val_unknown)

abbrev pub is_fn : SymType → Bool
is_fn nord.Symbol.sym_fn = true
is_fn _ = false

abbrev pub is_memory : LocType → Bool
is_memory nord.Symbol.loc_memory = true
is_memory _ = false

unfoldable pub compile_identifier : {R : Type 0} → Name → Action R
compile_identifier name = do
  identifier ← look_up name
  branch (is_undef identifier.location.kind) (fail exits) (
      branch (is_fn identifier.type)
        (pure (placed identifier.location.address nord.Value.val_function))
        (branch (is_memory identifier.location.kind) (load_variable identifier)
          (pure (placed identifier.location.address nord.Value.val_unknown))))

-- The conversion of a text to a `float` is not part of the repository.
unfoldable pub compile_literal : {R : Type 0} → (List ℕ → R) → TokenType → List ℕ → Action R
compile_literal atof TokenType.number text = do
  n ← lift (atoi text)
  context ← get
  write3 nord.Machine.op_loadv context.rp n
  here nord.Value.val_int
compile_literal atof TokenType.string text =
    load_constant (string_create text) nord.Value.val_string
compile_literal atof TokenType.float text =
    load_constant (Value.real (atof text)) nord.Value.val_float
compile_literal atof TokenType.true_ text = do
  context ← get
  write3 nord.Machine.op_load context.rp 1
  here nord.Value.val_boolean
compile_literal atof TokenType.false_ text = do
  context ← get
  write3 nord.Machine.op_load context.rp 0
  here nord.Value.val_boolean
compile_literal atof TokenType.nil_ text = do
  context ← get
  write2 nord.Machine.op_nil context.rp
  here nord.Value.val_nil
compile_literal atof TokenType.identifier text = compile_identifier text
compile_literal atof type text = here nord.Value.val_unknown
