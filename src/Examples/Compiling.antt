-- ===== src/Examples/Compiling.antt =====
-- Tests and witnesses of the compiler.
use nord.Prelude.{ℕ, ◌≤◌, ◌≡◌, refl, some, none, List, [], ◌∷◌, get_elem?, length, Option, ◌+◌}
use nord.Prelude.State.{continue, branch, lift, check}
use nord.Prelude.Result.{Result, ok, fault, out_of_bounds, bind}
use nord.Token
use nord.Token.{has_type}
use nord.Lexeme.{lex_one}
use nord.Lexer.{scan, peek, accept, backup, is_cached, match, token_value, initial}
use nord.Parser.{literal_at}
use nord.Syntax.{Ast, node, binary, list_expr_append, append_items, size}
use nord.Symbol.{zeroed, symbol_map_create, symbol_map_set, place, probe, ensure_room, home}
use nord.Hash.{pjw_hash}
use nord.Memory.{memory_create, memory_set, memory_get}
use nord.Bytecode.{
  CodeBlock, code_block_create, code_collection_create, code_collection_add_block, code_block_write,
  code_block_merge,
}
use nord.Machine.{Instruction}
use nord.Parser.Expressions.{
  expressions_from, expression_list, function_call, member_access, range, parse_tuple, primary,
  parse_unary, operators_from, factors_from, term_md, term, comparison, equality, conjunction,
  assignment,
}
use nord.Parser.Statements.{
  statements_from, statement_list, skip_lines, statement_block, anonymous_decl, expression,
  variable_decl, export_prefix, function_decl, import_statement, if_statement, for_variable,
  for_statement, any_statement, statement, callees, parse,
}
use nord.Value.{Value, arithmetic_cast}
use nord.Prelude.{true, false, inl, arith, replicate, take}
use nord.Word.{slt, wsub, wmul}
use nord.Machine.{Vm}
use nord.Execute.{vm_execute}
use nord.Examples.Machine.{sample_vm, sample_floats, sample_environment}
use nord.Compile.Expressions.{Arithmetic, number, operation, minus, times, height, code, Coded}
use nord.Compile.Computes.{compile_ast-vm_execute}
use nord.Compile.Constants.{cells}
use nord.Compile.Comparisons.{greater, compared, compared_code}
use nord.Compile.Decisions.{HasTruths}
use nord.Compile.Outcomes.{comparison-vm_execute}
use nord.Examples.Machine.{sample_floats-IsExact}
use nord.Syntax.{unset}
use nord.Compile.Control.{symbol_name_for_module_path}
use nord.Compile.ModuleName.{Names, symbol_name_for_module_path-Names}
use nord.Codegen.{instruction3, instruction4}
use nord.Bytecode.Growth.{code_block_create-IsBlock}
use nord.Compile.Lists.{Lists, Longer}
use nord.Compile.Preserves.{compile_ast-Longer}
use nord.Compile.{
  placed, set_rp, next_rp, open_scope, new_block, enter, CompileContext, edit, remember, define,
  define_global, close_scope, push_args,
}
use nord.Compile.Literals.{atoi, compile_literal}
use nord.Compile.Values.{binary_case, compile_binary, compile_declare}
use nord.Compile.Functions.{
  compile_fn_declaration, add_block, enter_region, compile_function, define_parameters, locals_of,
  update, compile_fn_body,
}
use nord.Compile.Control.{compile_statements, compile_statement_list}
use nord.Compile.Program.{compile_ast, compile, context_create}

abbrev integer : ℕ → ℕ → Ast
integer position byte =
    literal_at (record { type = nord.Token.number; start = position; end = position + 1 })
      (byte ∷ [])

-- 1 - 2 * 3
abbrev difference : Ast
difference =
    node (record { start = some 0; end = some 5 })
      (binary (record { type = nord.Token.minus; start = 1; end = 2 }) (integer 0 b'1')
        (node (record { start = some 2; end = some 5 })
          (binary (record { type = nord.Token.asterisk; start = 3; end = 4 }) (integer 2 b'2')
            (integer 4 b'3'))))

abbrev fresh : CompileContext ℕ
fresh = record {
  blocks = code_block_create ∷ [];
  collection = code_collection_create;
  data_ = memory_create Value.absent 1;
  exports = symbol_map_create;
  symbols = symbol_map_create;
  parents = [];
  current = 0;
  rp = 1;
  mp = 2;
  cp = 0;
  member_context = zeroed;
}

abbrev no_float : List ℕ → ℕ
no_float text = 0

abbrev usable : ℕ → ℕ
usable n = n + 8

-- the code of the difference, with its result in register 1
abbrev difference_code : CodeBlock Instruction
difference_code = record {
  size = 5;
  capacity = 8;
  code =
      some (instruction3 nord.Machine.op_loadv 1 1)
      ∷ some (instruction3 nord.Machine.op_loadv 2 2)
      ∷ some (instruction3 nord.Machine.op_loadv 3 3)
      ∷ some (instruction4 nord.Machine.op_multiply 2 2 3)
      ∷ some (instruction4 nord.Machine.op_subtract 1 1 2)
      ∷ none
      ∷ none
      ∷ none
      ∷ [];
}

abbrev after : CompileContext ℕ
after = record fresh { blocks = difference_code ∷ [] }

compiled : compile_ast no_float usable difference fresh ≡ ok (placed 1 nord.Value.val_int, after)
unfolding continue branch lift check compile_ast edit atoi compile_literal binary_case
    compile_binary code_block_create code_collection_create code_block_write code_block_merge
    memory_create symbol_map_create has_type set_rp next_rp arithmetic_cast
compiled = refl

compile_ast-Longer_example :
    (after.current ≡ fresh.current)
    × (after.cp ≡ fresh.cp)
    × (length after.parents ≡ length fresh.parents)
    × (fresh.mp ≤ after.mp)
    × (cells fresh.mp after.data_ ≡ cells fresh.mp fresh.data_)
    × ((yss : List (List Instruction)) × Lists (difference_code ∷ []) yss × Longer ([] ∷ []) yss)
compile_ast-Longer_example =
    compile_ast-Longer {R = ℕ} no_float usable difference fresh after (placed 1 nord.Value.val_int)
      ([] ∷ []) (code_block_create-IsBlock, tt) compiled

-- The whole way of a text to the code of its binary.
abbrev compile_text : List ℕ → Result (Option (CodeBlock Instruction))
compile_text text =
    bind (parse (initial text))
      λ r. bind (compile {R = ℕ} no_float usable r.0) λ context. ok (get_elem? context.blocks 0)

-- "1-2*3"
expression_text :
    compile_text (b'1' ∷ b'-' ∷ b'2' ∷ b'*' ∷ b'3' ∷ 0 ∷ []) ≡ ok (some difference_code)
unfolding parse scan lex_one peek accept backup is_cached match token_value list_expr_append size
    has_type expressions_from expression_list function_call member_access range parse_tuple primary
    parse_unary operators_from factors_from term_md term comparison equality conjunction assignment
    statements_from statement_list skip_lines statement_block anonymous_decl expression
    variable_decl export_prefix function_decl import_statement if_statement for_variable
    for_statement any_statement statement callees continue branch lift check append_items
    compile_ast compile context_create edit remember define define_global close_scope push_args atoi
    compile_literal binary_case compile_binary compile_declare compile_statements
    compile_statement_list memory_create memory_set code_block_create code_collection_create
    code_block_write code_collection_add_block code_block_merge symbol_map_create symbol_map_set
    place probe ensure_room home pjw_hash set_rp next_rp open_scope new_block enter arithmetic_cast
expression_text = refl

-- "fn f{}": the last instruction of an empty body is read before the start of its block.
empty_function :
    compile_text (b'f' ∷ b'n' ∷ b' ' ∷ b'f' ∷ b' ' ∷ b'{' ∷ b'}' ∷ 0 ∷ []) ≡ fault out_of_bounds
unfolding parse scan lex_one peek accept backup is_cached match token_value list_expr_append size
    has_type expressions_from expression_list function_call member_access range parse_tuple primary
    parse_unary operators_from factors_from term_md term comparison equality conjunction assignment
    statements_from statement_list skip_lines statement_block anonymous_decl expression
    variable_decl export_prefix function_decl import_statement if_statement for_variable
    for_statement any_statement statement callees continue branch lift check append_items
    compile_ast compile context_create edit remember define define_global close_scope push_args atoi
    compile_literal binary_case compile_binary compile_declare compile_statements
    compile_statement_list memory_create memory_set code_block_create code_collection_create
    code_block_write code_collection_add_block code_block_merge symbol_map_create symbol_map_set
    place probe ensure_room home pjw_hash set_rp next_rp open_scope new_block enter arithmetic_cast
    compile_fn_declaration add_block enter_region compile_function define_parameters locals_of
    update compile_fn_body
empty_function = refl

one_digit : atoi (b'1' ∷ []) ≡ ok 1
unfolding atoi
one_digit = refl

two_digit : atoi (b'2' ∷ []) ≡ ok 2
unfolding atoi
two_digit = refl

three_digit : atoi (b'3' ∷ []) ≡ ok 3
unfolding atoi
three_digit = refl

-- the difference as an expression, with the value 1 - 2 * 3
abbrev difference-Arithmetic : Arithmetic difference (wsub 1 (wmul 2 3))
difference-Arithmetic =
    operation minus (number one_digit (omega arith))
      (operation times (number two_digit (omega arith)) (number three_digit (omega arith)))

abbrev difference_machine : Vm ℕ
difference_machine = record sample_vm {
  regions = code difference-Arithmetic 1 ∷ [];
  region = 0;
  pc = 0;
  registers = replicate 8 Value.absent;
}

fresh-Coded : Coded fresh.blocks fresh.current []
fresh-Coded = record {
  block = code_block_create;
  stored = refl;
  listed = code_block_create-IsBlock;
}

compile_ast-vm_execute_example :
    ((bs : List (CodeBlock Instruction)) × (compile_ast no_float usable difference fresh
        ≡ ok (placed 1 nord.Value.val_int, record fresh { blocks = bs }))
      × Coded bs 0 (code difference-Arithmetic 1))
    × ((fuel : ℕ) × (rs : List (Value ℕ)) × (vm_execute sample_floats sample_environment fuel
            difference_machine
          ≡ ok (record difference_machine {
            pc = 0 + length (code difference-Arithmetic 1);
            registers = rs;
          }))
        × (get_elem? rs 1 ≡ some (Value.int (wsub 1 (wmul 2 3))))
        × (take 1 rs ≡ take 1 difference_machine.registers))
unfolding height
compile_ast-vm_execute_example =
    compile_ast-vm_execute sample_floats sample_environment no_float usable difference-Arithmetic
      fresh [] difference_machine fresh-Coded (omega arith) (omega arith) refl refl

-- "a/b"
symbol_name_for_module_path-Names_example :
    Names (b'a' ∷ b'/' ∷ b'b' ∷ []) (symbol_name_for_module_path (b'a' ∷ b'/' ∷ b'b' ∷ []))
symbol_name_for_module_path-Names_example =
    symbol_name_for_module_path-Names (b'a' ∷ b'/' ∷ b'b' ∷ [])

-- 3 > 3
abbrev three-Arithmetic : Arithmetic (integer 0 b'3') 3
three-Arithmetic = number three_digit (omega arith)

abbrev comparing_machine : Vm ℕ
comparing_machine = record difference_machine {
  memory = record {
    capacity = 2;
    contents = Value.boolean false true ∷ Value.boolean true true ∷ [];
  };
  regions = compared_code greater three-Arithmetic three-Arithmetic 1 ∷ [];
}

comparing_machine-HasTruths : HasTruths comparing_machine
unfolding memory_get
comparing_machine-HasTruths = record { cell0 = refl; cell1 = refl }

-- The outcome of 3 > 3 is true.
comparison-vm_execute_example :
    ((bs : List (CodeBlock Instruction)) × (compile_ast no_float usable
          (compared unset greater 1 2 (integer 0 b'3') (integer 0 b'3'))
          fresh
        ≡ ok (placed 1 nord.Value.val_boolean, record fresh { blocks = bs }))
      × Coded bs 0 (compared_code greater three-Arithmetic three-Arithmetic 1))
    × ((fuel : ℕ) × (rs : List (Value ℕ)) × (vm_execute sample_floats sample_environment fuel
            comparing_machine
          ≡ ok (record comparing_machine {
            pc = 0 + length (compared_code greater three-Arithmetic three-Arithmetic 1);
            registers = rs;
          }))
        × (get_elem? rs 1 ≡ some (Value.boolean true true))
        × (take 1 rs ≡ take 1 comparing_machine.registers))
unfolding height slt
comparison-vm_execute_example =
    comparison-vm_execute sample_floats sample_floats-IsExact sample_environment no_float usable
      unset greater 1 2 three-Arithmetic three-Arithmetic fresh [] comparing_machine
      (inl (omega arith)) (inl (omega arith)) fresh-Coded (omega arith) (omega arith) refl
      comparing_machine-HasTruths refl refl
