-- ===== src/Compile/Program.antt =====
-- src/compiler/compile.c: `compile_ast` over the whole tree, and `compile`.
use nord.Prelude.{ℕ, true, false, Option, none, some, List, [], ◌∷◌}
use nord.Prelude.Int.{pos}
use nord.Prelude.State.{pure, lift, fail, ◌>>=◌, ◌>>◌}
use nord.Prelude.Result.{Result, ok, bind, null_pointer, indeterminate}
use nord.Memory.{memory_create, memory_set}
use nord.Bytecode.{code_block_create, code_collection_create, code_collection_add_block}
use nord.Symbol.{symbol_map_create, zeroed}
use nord.Syntax.{
  Ast, Asts, Node, null, node, nil, cons, assign, binary, declare, unary, literal, group, stmt_list,
  function_decl, function_call, expr_list, var_list, module_, if_stmt, for_stmt, tuple, range, size,
}
use nord.Value.{Value}
use nord.Compile.{CompileContext, merge, unset, stored}
use nord.Compile.Literals.{Action, compile_literal}
use nord.Compile.Values.{
  compile_tuple, compile_range, compile_unary, compile_binary, compile_assign, compile_declare,
}
use nord.Compile.Calls.{compile_fn_call}
use nord.Compile.Functions.{compile_fn_declaration}
use nord.Compile.Control.{
  compile_statement_list, compile_if_statement, compile_for_statement, compile_module, code_of,
}

-- `atof` and the room of an allocation are the C library's.
module _ {R : Type 0} (atof : List ℕ → R) (usable : ℕ → ℕ) where
  -- a list of parameters, or none
  abbrev parameters : Ast → Asts
  parameters (node l (expr_list capacity items)) = items
  parameters t = nil

  unfoldable mutual
    pub compile_ast : Ast → Action R
    compile_ast null = fail null_pointer
    compile_ast (node l n) = compile_node n

    pub compile_node : Node → Action R
    compile_node (stmt_list capacity items) = do
      result ← compile_statement_list (compile_all items)
      code ← code_of result
      merge code
      pure result
    compile_node (literal t value) =
        lift (stored value) >>= λ text. compile_literal atof t.type text
    compile_node (unary operator operand) = compile_unary operator.type (compile_ast operand)
    compile_node (binary operator left right) =
        compile_binary operator left right (compile_ast left) (compile_ast right)
    compile_node (declare var_type name value) =
        compile_declare var_type name (compile_optional value)
    compile_node (assign name value) = compile_assign name (compile_ast value)
    compile_node (group t) = compile_ast t
    compile_node (function_decl name exported args body) =
        compile_fn_declaration usable name exported (size (parameters args)) (parameters args)
          (compile_ast body)
    compile_node (function_call name args) = compile_fn_call name (compile_arguments args)
    compile_node (tuple capacity items) = compile_tuple (compile_all items)
    compile_node (range begin end) = compile_range (compile_ast begin) (compile_ast end)
    compile_node (if_stmt condition body) =
        compile_if_statement (compile_ast condition) (compile_body body)
    compile_node (for_stmt var iterable body) =
        compile_for_statement var (compile_ast iterable) (compile_body body)
    compile_node (module_ name) = compile_module name
    compile_node (expr_list capacity items) = pure unset
    compile_node (var_list capacity items) = pure unset

    -- the items of a list
    pub compile_all : Asts → List (Action R)
    compile_all nil = []
    compile_all (cons t ts) = compile_ast t ∷ compile_all ts

    -- the statements of a body, which may be a single one
    pub compile_body : Ast → List (Action R)
    compile_body null = fail null_pointer ∷ []
    compile_body (node l (stmt_list capacity items)) = compile_all items
    compile_body (node l n) = compile_node n ∷ []

    pub compile_optional : Ast → Option (Action R)
    compile_optional null = none
    compile_optional (node l n) = some (compile_node n)

    pub compile_arguments : Ast → Option (List (Action R))
    compile_arguments null = none
    compile_arguments (node l (expr_list capacity items)) = some (compile_all items)
    compile_arguments (node l n) = some (fail indeterminate ∷ [])

  -- The truth values are the first two constants.
  unfoldable pub context_create : Result (CompileContext R)
  context_create =
      bind
        (memory_set Value.absent (memory_create Value.absent 1) (pos 0) (Value.boolean false true))
        λ m. bind (memory_set Value.absent m (pos 1) (Value.boolean true true)) λ data_.
          bind (code_collection_add_block code_collection_create 0) λ collection. ok (record {
            blocks = code_block_create ∷ [];
            collection = collection;
            data_ = data_;
            exports = symbol_map_create;
            symbols = symbol_map_create;
            parents = [];
            current = 0;
            rp = 1;
            mp = 2;
            cp = 0;
            member_context = zeroed;
          })

  -- The binary is in the fields of the context.
  unfoldable pub compile : Ast → Result (CompileContext R)
  compile ast = bind context_create λ context. bind (compile_ast ast context) λ r. ok r.1
