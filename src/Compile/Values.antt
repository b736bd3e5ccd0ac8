-- ===== src/Compile/Values.antt =====
-- src/compiler/compile.c: tuples, ranges, operators, assignments and declarations.
use nord.Prelude.{
  ℕ, zero, suc, ◌+◌, ◌-◌, ◌*◌, ◌%◌, ◌^◌, Bool, true, false, ◌||◌, ◌&&◌, not, Option, none, some,
  List, [], ◌∷◌, ◌++◌, ltb, leb, ◌==◌, if◌then◌else◌, length,
}
use nord.Prelude.State.{pure, lift, fail, ◌>>=◌, ◌>>◌, branch, check}
use nord.Prelude.Result.{Result, ok, fault, bind, exits, indeterminate, null_pointer}
use nord.Token.{Token, TokenType, has_type}
use nord.Symbol.{Symbol, Name, SymType, LocType, SymPointer, is_undef}
use nord.Syntax.{Ast, null, node, literal, function_call}
use nord.Value
use nord.Value.{Value, ValueType, string_create, same_type, arithmetic_cast}
use nord.Machine
use nord.Machine.{Instruction, Opcode}
use nord.Codegen.{CompileResult, instruction4, compile_binary_comparison}
use nord.Compile.{
  Compiler, Compiled, get, modify, write, write2, write3, merge, remember, look_up, define, set_rp,
  next_rp, here, placed, stored, push_args,
}
use nord.Compile.Literals.{Action, location_of, type_of, write_out_builtin}

-- The values of a list, and the registers that they are in: the register pointer moves on over a
-- value that was put there.
unfoldable pub compile_values : {R : Type 0} → List (Action R) → Compiler R (List ℕ)
compile_values [] = pure []
compile_values (action ∷ actions) = do
  result ← action
  location ← location_of result
  context ← get
  branch (location == context.rp) next_rp (pure tt)
  rest ← compile_values actions
  pure (location ∷ rest)

unfoldable pub compile_tuple : {R : Type 0} → List (Action R) → Action R
compile_tuple items = do
  before ← get
  registers ← compile_values items
  push_args (length registers) registers
  set_rp before.rp
  write3 nord.Machine.op_loadv 0 (length items)
  address ← remember (string_create (b't' ∷ b'u' ∷ b'p' ∷ b'l' ∷ b'e' ∷ []))
  write2 nord.Machine.op_call_dynamic address
  write2 nord.Machine.op_pop (before.rp)
  here nord.Value.val_tuple

unfoldable pub compile_range : {R : Type 0} → Action R → Action R → Action R
compile_range begin end = do
  before ← get
  first ← begin
  l ← location_of first
  next_rp
  last ← end
  r ← location_of last
  set_rp before.rp
  write_out_builtin (b'r' ∷ b'a' ∷ b'n' ∷ b'g' ∷ b'e' ∷ []) 2 (l ∷ r ∷ [])

-- The operators that have no case write nothing.
abbrev pub unary_code : {R : Type 0} → TokenType → ℕ → ℕ → Compiler R (Unit {0})
unary_code TokenType.minus rp right = write3 nord.Machine.op_negate rp right
unary_code TokenType.bang rp right = write3 nord.Machine.op_not rp right
unary_code TokenType.return rp right = write2 nord.Machine.op_return right
unary_code type rp right = pure tt

unfoldable pub compile_unary : {R : Type 0} → TokenType → Action R → Action R
compile_unary operator operand = do
  right ← operand
  location ← location_of right
  context ← get
  unary_code operator context.rp location
  pure (record { location = some context.rp; type = right.type; code = none })

-- An instruction on two operands, with the result at the register pointer.
abbrev pub binary_code : {R : Type 0} → Opcode → ValueType → ℕ → ℕ → Action R
binary_code op type left right = do
  context ← get
  write (instruction4 op context.rp left right)
  here type

abbrev pub merge_result : {R : Type 0} → CompileResult → Compiler R (Unit {0})
merge_result result = elim result.code [ none ↦ pure tt | some block ↦ merge block ]

-- A comparison whose outcome is moved to the register pointer.
abbrev pub comparison : {R : Type 0} → Opcode → ℕ → ℕ → ℕ → Action R
comparison op condition left right = do
  context ← get
  result ← lift (compile_binary_comparison op ((context.rp + 2) % 256) condition left right)
  merge_result result
  write3 nord.Machine.op_move context.rp result.location
  here nord.Value.val_boolean

-- A comparison with `LESSTHAN`, or equality.
abbrev pub comparison_or_equal : {R : Type 0} → ℕ → ℕ → ℕ → Action R
comparison_or_equal condition left right = do
  context ← get
  first ← lift (
      compile_binary_comparison nord.Machine.op_lessthan ((context.rp + 2) % 256) condition left
        right)
  merge_result first
  second ←
      lift (compile_binary_comparison nord.Machine.op_equal ((context.rp + 3) % 256) 1 left right)
  merge_result second
  write
      (instruction4 nord.Machine.op_or context.rp ((context.rp + 2) % 256) ((context.rp + 3) % 256))
  here nord.Value.val_boolean

abbrev pub arithmetic : {R : Type 0} → Opcode → Compiled → Compiled → Action R
arithmetic op left right = do
  s ← type_of left
  t ← type_of right
  l ← location_of left
  r ← location_of right
  binary_code op (arithmetic_cast s t) l r

abbrev pub with_locations : {R : Type 0} → (ℕ → ℕ → Action R) → Compiled → Compiled → Action R
with_locations next left right = do l ← location_of left; r ← location_of right; next l r

-- The `switch` over the operators. Without a case the instruction that is written was never set.
unfoldable pub binary_case : {R : Type 0} → TokenType → Compiled → Compiled → Action R
binary_case TokenType.plus left right = arithmetic nord.Machine.op_add left right
binary_case TokenType.minus left right = arithmetic nord.Machine.op_subtract left right
binary_case TokenType.asterisk left right = arithmetic nord.Machine.op_multiply left right
binary_case TokenType.slash left right =
    with_locations (binary_code nord.Machine.op_divide nord.Value.val_float) left right
binary_case TokenType.modulo left right = do
  s ← type_of left
  t ← type_of right
  branch (same_type s nord.Value.val_int && same_type t nord.Value.val_int)
      (arithmetic nord.Machine.op_modulo left right) (fail exits)
binary_case TokenType.and_ left right =
    with_locations (binary_code nord.Machine.op_and nord.Value.val_boolean) left right
binary_case TokenType.or_ left right =
    with_locations (binary_code nord.Machine.op_or nord.Value.val_boolean) left right
binary_case TokenType.equal_equal left right =
    with_locations (comparison nord.Machine.op_equal 1) left right
binary_case TokenType.bang_equal left right =
    with_locations (comparison nord.Machine.op_equal 0) left right
binary_case TokenType.less left right =
    with_locations (comparison nord.Machine.op_lessthan 1) left right
binary_case TokenType.less_equal left right = with_locations (comparison_or_equal 1) left right
binary_case TokenType.greater left right =
    with_locations (comparison nord.Machine.op_lessthan 0) left right
binary_case TokenType.greater_equal left right = with_locations (comparison_or_equal 0) left right
binary_case type left right = fail indeterminate

-- The name on the left of a dot.
abbrev pub literal_name : Ast → Result Name
literal_name null = fault null_pointer
literal_name (node l (literal t value)) = stored value
literal_name (node l n) = fault nord.Prelude.Result.assertion

abbrev pub is_call : Ast → Bool
is_call (node l (function_call name args)) = true
is_call t = false

-- The dot: the call on its right is compiled in the context of the name on its left, and then an
-- instruction is written that was never set.
unfoldable pub compile_dot : {R : Type 0} → Ast → Ast → Action R → Action R
compile_dot left right call = do
  name ← lift (literal_name left)
  check (is_call right)
  before ← get
  symbol ← look_up name
  modify λ context. record context { member_context = symbol }
  result ← call
  modify λ context. record context { member_context = before.member_context }
  fail indeterminate

unfoldable pub compile_binary : {R : Type 0} → Token → Ast → Ast → Action R → Action R → Action R
compile_binary operator left right left_action right_action = do
  l ← left_action
  next_rp
  branch (has_type TokenType.dot operator) (compile_dot left right right_action)
      (do r ← right_action; context ← get; set_rp (context.rp + 255); binary_case operator.type l r)

abbrev pub is_constant : SymType → Bool
is_constant nord.Symbol.sym_constant = true
is_constant _ = false

-- A function is assigned by its address, any other value by a move.
abbrev pub assign_value : {R : Type 0} → Symbol → Compiled → ℕ → ValueType → Action R
assign_value symbol value location nord.Value.val_function = do
  define (record symbol { location = record { kind = nord.Symbol.loc_memory; address = location } })
  pure (placed location nord.Value.val_function)
assign_value symbol value location type = do
  write3 nord.Machine.op_move symbol.location.address location
  pure (placed symbol.location.address type)

unfoldable pub compile_assign : {R : Type 0} → Name → Action R → Action R
compile_assign name value = do
  symbol ← look_up name
  branch (is_undef symbol.location.kind) (fail exits) (
      branch (is_constant symbol.type) (fail exits) (do
        rvalue ← value
        type ← type_of rvalue
        location ← location_of rvalue
        assign_value symbol rvalue location type))

-- The location of a variable with an initial value of a type.
abbrev pub location_kind : ValueType → LocType
location_kind nord.Value.val_function = nord.Symbol.loc_memory
location_kind type = nord.Symbol.loc_register

abbrev pub declared_type : Token → SymType
declared_type t = if has_type TokenType.var t then nord.Symbol.sym_var else nord.Symbol.sym_constant

-- `none` is a declaration without an initial value.
unfoldable pub compile_declare : {R : Type 0} → Token → Name → Option (Action R) → Action R
compile_declare var_type name none = do
  define (record {
    name = some name;
    type = declared_type var_type;
    location = record { kind = nord.Symbol.loc_none; address = 0 };
  })
  pure (placed 0 nord.Value.val_absent)
compile_declare var_type name (some value) = do
  initial ← value
  type ← type_of initial
  location ← location_of initial
  next_rp
  define (record {
    name = some name;
    type = declared_type var_type;
    location = record { kind = location_kind type; address = location };
  })
  pure (placed location type)
