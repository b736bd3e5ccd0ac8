-- ===== src/Compile/Preserves.antt =====
-- src/compiler/compile.c: the declaration of functions and `compile_ast`, and the frame they run in.
use nord.Prelude.{ℕ, ◌+◌, ◌-◌, ◌≤◌, ◌≡◌, refl, ◌∙◌, Bool, List, arith, length}
use nord.Prelude.State.{continue}
use nord.Prelude.Result.{Result, ok, fault, bind}
use nord.Memory.{Memory}
use nord.Bytecode.{CodeCollection, code_collection_add_block}
use nord.Symbol.{Symbol, SymbolMap, Name, symbol_map_set}
use nord.Syntax.{
  Ast, Asts, Node, null, node, nil, cons, assign, binary, declare, unary, literal, group, stmt_list,
  function_decl, function_call, expr_list, var_list, module_, if_stmt, for_stmt, tuple, range,
}
use nord.Value.{Value}
use nord.Machine.{Instruction}
use nord.Compile.{Compiled, CompileContext}
use nord.Compile.Literals.{Action}
use nord.Compile.Functions.{
  define_parameters, update, add_block, compile_fn_body, compile_function, enter_region, export,
  compile_fn_declaration,
}
use nord.Compile.Program.{
  compile_ast, compile_node, compile_all, compile_body, compile_optional, compile_arguments,
}
use nord.Prelude.Holds.{Holds, value, none_left}
use nord.Compile.Constants.{cells, memory_set-cells}
use nord.Compile.Lists.{Lists, Longer, Longer-refl}
use nord.Compile.Frame.{
  Frame, Inside, Ends, inside, stops, Any, Keeps, continue-Ends, next-Ends, Ends-ok, read-Ends,
  merge-Ends, new_block-Ends, frame_rules, remember-place,
}
use nord.Compile.Keeps.{
  AllKeep, MaybeKeep, compile_literal-Keeps, compile_tuple-Keeps, compile_range-Keeps,
  compile_unary-Keeps, compile_binary-Keeps, compile_assign-Keeps, compile_declare-Keeps,
}
use nord.Compile.Scopes.{
  deeper, in_region, OptionKeep, compile_fn_call-Keeps, open_scope-Ends, close_scope-Ends,
  statement_list-Keeps, code_of-Ends, if_statement-Keeps, for_statement-Keeps, compile_module-Keeps,
}

module _ {R : Type 0} where
  define_parameters-Keeps :
      (register k : ℕ) (params : Asts) → Keeps {R = R} (define_parameters register k params)
  unfolding define_parameters
  define_parameters-Keeps register k nil frame c i = search frame_rules
  define_parameters-Keeps register k (cons t ts) frame c i =
      search (frame_rules, define_parameters-Keeps register (k + 1) ts) depth 15

  -- a store behind the constants that are kept
  update-Ends :
      {frame : Frame R} (address : ℕ) (v : Value R) (c : CompileContext R)
      → frame.constants ≤ address
      → Inside frame c
      → Ends frame Any (update address v c)
  unfolding update
  update-Ends {frame = frame} address v c h i =
      at _ (memory_set-cells frame.constants address c.data_ v h)
    where
      at :
          (r : Result (Memory (Value R)))
          → Holds (λ m. cells frame.constants m ≡ cells frame.constants c.data_) r
          → Ends {R = R} frame Any (bind r λ m. ok (tt, record c { data_ = m }))
      at (ok m) (value e) = inside tt (record {
        current = i.current;
        region = i.region;
        depth = i.depth;
        constants = i.constants;
        values = e ∙ i.values;
        code = i.code;
      })
      at (fault why) none_left = stops

  export-Keeps : (symbol : Symbol) → Keeps {R = R} (export symbol)
  unfolding export
  export-Keeps symbol frame c i = at (symbol_map_set c.exports symbol)
    where
      at :
          (r : Result SymbolMap)
          → Ends {R = R} frame Any (bind r λ m. ok (tt, record c { exports = m }))
      at (ok m) = inside tt (record {
        current = i.current;
        region = i.region;
        depth = i.depth;
        constants = i.constants;
        values = i.values;
        code = i.code;
      })
      at (fault why) = stops

  add_block-Keeps : (block : ℕ) → Keeps {R = R} (add_block block)
  unfolding add_block
  add_block-Keeps block frame c i = at (code_collection_add_block c.collection block)
    where
      at :
          (r : Result (CodeCollection ℕ))
          → Ends {R = R} frame Any (bind r λ m. ok (m.size - 1, record c { collection = m }))
      at (ok m) = inside tt (record {
        current = i.current;
        region = i.region;
        depth = i.depth;
        constants = i.constants;
        values = i.values;
        code = i.code;
      })
      at (fault why) = stops

  enter_region-Ends :
      {frame : Frame R} (block region n m : ℕ) (c : CompileContext R)
      → block ≡ n
      → region ≡ m
      → Inside frame c
      → Ends (in_region n m frame) Any (enter_region block region c)
  unfolding enter_region
  enter_region-Ends block region n m c e f i = inside tt (record {
    current = e;
    region = f;
    depth = i.depth;
    constants = i.constants;
    values = i.values;
    code = i.code;
  })

  body-Keeps : (body : Action R) → Keeps body → Keeps (compile_fn_body body)
  unfolding compile_fn_body
  body-Keeps body h frame c i = search (frame_rules, h) depth 20

  function-Keeps :
      (usable : ℕ → ℕ) (name : Name) (n : ℕ) (params : Asts) (body : Action R)
      → Keeps body
      → Keeps (compile_function usable name n params body)
  unfolding compile_function continue
  function-Keeps usable name n params body h frame c i =
      continue-Ends frame _ _ (remember-place c i _) λ place c₁ later i₁.
        search (frame_rules, define_parameters-Keeps, update-Ends, body-Keeps body h, later) depth
          30

  declaration-Keeps :
      (usable : ℕ → ℕ) (name : Name) (exported : Bool) (n : ℕ) (params : Asts) (body : Action R)
      → Keeps body
      → Keeps (compile_fn_declaration usable name exported n params body)
  unfolding compile_fn_declaration continue
  declaration-Keeps usable name exported n params body h frame c i =
      continue-Ends (deeper frame) _ _ (open_scope-Ends c i) λ _ c₁ _ i₁.
        continue-Ends (deeper frame) _ _ (new_block-Ends c₁ i₁) λ block c₂ _ i₂.
          continue-Ends (deeper frame) _ _ (add_block-Keeps block _ c₂ i₂) λ region c₃ _ i₃.
            continue-Ends (in_region block region (deeper frame)) _ _
              (enter_region-Ends block region _ _ c₃ refl refl i₃)
              λ _ c₄ _ i₄.
                continue-Ends (in_region block region (deeper frame)) _ _
                  (function-Keeps usable name n params body h _ c₄ i₄)
                  λ place c₅ _ i₅.
                    continue-Ends (in_region block region frame) _ _ (close_scope-Ends c₅ i₅)
                      λ _ c₆ _ i₆.
                        continue-Ends frame _ _
                          (enter_region-Ends _ _ frame.current frame.region c₆ i.current i.region
                            i₆)
                          λ _ c₇ _ i₇. search (frame_rules, export-Keeps) depth 20

module _ {R : Type 0} (atof : List ℕ → R) (usable : ℕ → ℕ) where
  mutual
    unfolding compile_ast

    compile_ast-Keeps : (t : Ast) → Keeps (compile_ast atof usable t)
    compile_ast-Keeps null frame c i = stops
    compile_ast-Keeps (node l n) frame c i = compile_node-Keeps n frame c i

    compile_node-Keeps : (n : Node) → Keeps (compile_node atof usable n)
    compile_node-Keeps (stmt_list capacity items) = λ frame c i.
        next-Ends _ _ (statement_list-Keeps _ (compile_all-Keeps items) frame c i) λ result c₁ i₁.
          continue-Ends _ _ _ (code_of-Ends result c₁ i₁) λ code c₂ listed i₂.
            next-Ends _ _ (merge-Ends c₂ i₂ code listed) λ _ c₃ i₃. inside tt i₃
    compile_node-Keeps (literal t v) = λ frame c i.
        next-Ends _ _ (read-Ends c i _) λ text c₁ i₁. compile_literal-Keeps atof _ text frame c₁ i₁
    compile_node-Keeps (unary operator operand) =
        compile_unary-Keeps _ _ (compile_ast-Keeps operand)
    compile_node-Keeps (binary operator left right) =
        compile_binary-Keeps operator left right _ _ (compile_ast-Keeps left)
          (compile_ast-Keeps right)
    compile_node-Keeps (declare var_type name v) =
        compile_declare-Keeps var_type name _ (compile_optional-Keeps v)
    compile_node-Keeps (assign name v) = compile_assign-Keeps name _ (compile_ast-Keeps v)
    compile_node-Keeps (group t) = compile_ast-Keeps t
    compile_node-Keeps (function_decl name exported args body) =
        declaration-Keeps usable name exported _ _ _ (compile_ast-Keeps body)
    compile_node-Keeps (function_call name args) =
        compile_fn_call-Keeps name _ (compile_arguments-Keeps args)
    compile_node-Keeps (tuple capacity items) = compile_tuple-Keeps _ (compile_all-Keeps items)
    compile_node-Keeps (range begin end) =
        compile_range-Keeps _ _ (compile_ast-Keeps begin) (compile_ast-Keeps end)
    compile_node-Keeps (if_stmt condition body) =
        if_statement-Keeps _ _ (compile_ast-Keeps condition) (compile_body-Keeps body)
    compile_node-Keeps (for_stmt var iterable body) =
        for_statement-Keeps var _ _ (compile_ast-Keeps iterable) (compile_body-Keeps body)
    compile_node-Keeps (module_ name) = compile_module-Keeps name
    compile_node-Keeps (expr_list capacity items) = λ frame c i. inside tt i
    compile_node-Keeps (var_list capacity items) = λ frame c i. inside tt i

    compile_all-Keeps : (ts : Asts) → AllKeep (compile_all atof usable ts)
    compile_all-Keeps nil = tt
    compile_all-Keeps (cons t ts) = (compile_ast-Keeps t, compile_all-Keeps ts)

    compile_body-Keeps : (t : Ast) → AllKeep (compile_body atof usable t)
    compile_body-Keeps null = (λ frame c i. stops, tt)
    compile_body-Keeps (node l (stmt_list capacity items)) = compile_all-Keeps items
    compile_body-Keeps (node l n) = (compile_node-Keeps n, tt)

    compile_optional-Keeps : (t : Ast) → MaybeKeep (compile_optional atof usable t)
    compile_optional-Keeps null = tt
    compile_optional-Keeps (node l n) = compile_node-Keeps n

    compile_arguments-Keeps : (t : Ast) → OptionKeep (compile_arguments atof usable t)
    compile_arguments-Keeps null = tt
    compile_arguments-Keeps (node l (expr_list capacity items)) = compile_all-Keeps items
    compile_arguments-Keeps (node l _) = (λ frame c i. stops, tt)

  -- A tree that is compiled to the end leaves the current block, the region and the number of open
  -- scopes as they were; every constant that was stored is still in its cell of the binary's data; and
  -- every block of code stands for a list of instructions that starts with the one it stood for before.
  pub compile_ast-Longer :
      (t : Ast) (c c' : CompileContext R) (r : Compiled) (xss : List (List Instruction))
      → Lists c.blocks xss
      → compile_ast atof usable t c ≡ ok (r, c')
      → (c'.current ≡ c.current)
        × (c'.cp ≡ c.cp)
        × (length c'.parents ≡ length c.parents)
        × (c.mp ≤ c'.mp)
        × (cells c.mp c'.data_ ≡ cells c.mp c.data_)
        × ((yss : List (List Instruction)) × Lists c'.blocks yss × Longer xss yss)
  compile_ast-Longer t c c' r xss h e =
      let frame : Frame R = record {
        current = c.current;
        region = c.cp;
        depth = length c.parents;
        constants = c.mp;
        values = cells c.mp c.data_;
        lists = xss;
      } in
      let start : Inside frame c = record {
        current = refl;
        region = refl;
        depth = refl;
        constants = omega arith;
        values = refl;
        code = (xss, h, Longer-refl xss);
      } in
      let end : Inside frame c' = Ends-ok (compile_ast-Keeps t frame c start) e in
      (end.current, end.region, end.depth, end.constants, end.values, end.code)
