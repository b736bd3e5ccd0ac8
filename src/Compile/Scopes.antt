-- ===== src/Compile/Scopes.antt =====
-- src/compiler/compile.c: calls, statement lists, conditionals and loops, and the frame they run in.
use nord.Prelude.{
  ℕ, zero, suc, ◌+◌, ◌≡◌, refl, Bool, Option, none, some, List, [], ◌∷◌, ap, arith, length,
}
use nord.Prelude.State.{continue, branch, pure}
use nord.Prelude.Result.{ok, bind}
use nord.Bytecode.{CodeBlock}
use nord.Symbol.{Symbol, SymbolMap, Name, LocType, symbol_map_create, symbol_map_set}
use nord.Value.{FunctionDef}
use nord.Machine.{Instruction}
use nord.Compile.{
  Compiled, CompileContext, close_scope, scopes_above, open_scope, enter, merge, next_rp,
}
use nord.Compile.Literals.{Action}
use nord.Compile.Calls.{
  compile_fn_call_builtin, save_conflicts, compile_args, native_args, restore_conflicts,
  compile_fn_call_native, call_case, compile_fn_call,
}
use nord.Compile.Control.{
  compile_statements, compile_statement_list, code_of, compile_if_statement, define_variable,
  compile_loop, compile_for_statement, compile_module,
}
use nord.Compile.Lists.{Listed}
use nord.Compile.Frame.{
  Frame, Inside, Ends, inside, stops, Any, Keeps, continue-Ends, next-Ends, read-Ends, merge-Ends,
  block_at-Ends, new_block-Ends, next_rp-Ends, write-Ends, frame_rules,
}
use nord.Compile.Keeps.{AllKeep, write_out_builtin-Keeps, compile_values-Keeps}

-- one scope further in
abbrev pub deeper : {R : Type 0} → Frame R → Frame R
deeper frame = record frame { depth = suc frame.depth }

abbrev pub in_region : {R : Type 0} → ℕ → ℕ → Frame R → Frame R
in_region block region frame = record frame { current = block; region = region }

abbrev within : {R : Type 0} → ℕ → Frame R → Frame R
within block frame = record frame { current = block }

module _ {R : Type 0} where
  -- What holds of the actions of a list, if there is one.
  abbrev pub OptionKeep : Option (List (Action R)) → Type 0
  OptionKeep none = Unit
  OptionKeep (some actions) = AllKeep actions

  builtin-Keeps :
      (name : Name) (args : Option (List (Action R)))
      → OptionKeep args
      → Keeps (compile_fn_call_builtin name args)
  unfolding compile_fn_call_builtin
  builtin-Keeps name none h frame c i = search (frame_rules, write_out_builtin-Keeps) depth 12
  builtin-Keeps name (some args) h frame c i =
      search (frame_rules, compile_values-Keeps args h, write_out_builtin-Keeps) depth 12

  save_conflicts-Keeps : (def : FunctionDef) (n k : ℕ) → Keeps {R = R} (save_conflicts def n k)
  unfolding save_conflicts
  save_conflicts-Keeps def zero k frame c i = search frame_rules
  save_conflicts-Keeps def (suc n) k frame c i =
      search (frame_rules, save_conflicts-Keeps def n (k + 1)) depth 15

  restore_conflicts-Keeps : (def : FunctionDef) (n : ℕ) → Keeps {R = R} (restore_conflicts def n)
  unfolding restore_conflicts
  restore_conflicts-Keeps def zero frame c i = search frame_rules
  restore_conflicts-Keeps def (suc n) frame c i =
      search (frame_rules, restore_conflicts-Keeps def n) depth 15

  compile_args-Keeps :
      (def : FunctionDef) (k : ℕ) (actions : List (Action R))
      → AllKeep actions
      → Keeps (compile_args def k actions)
  unfolding compile_args
  compile_args-Keeps def k [] h frame c i = search frame_rules
  compile_args-Keeps def k (action ∷ actions) (h, hs) frame c i =
      search (frame_rules, h, compile_args-Keeps def (k + 1) actions hs) depth 20

  native_args-Keeps :
      (def : FunctionDef) (args : Option (List (Action R)))
      → OptionKeep args
      → Keeps (native_args def args)
  native_args-Keeps def none h frame c i = search frame_rules
  native_args-Keeps def (some args) h frame c i =
      search (frame_rules, compile_args-Keeps def 0 args h)

  native-Keeps :
      (name : Name) (args : Option (List (Action R)))
      → OptionKeep args
      → Keeps (compile_fn_call_native name args)
  unfolding compile_fn_call_native
  native-Keeps name args h frame c i =
      search (frame_rules, save_conflicts-Keeps, restore_conflicts-Keeps, given) depth 30
    where
      given : (def : FunctionDef) → Keeps (native_args def args)
      given def = native_args-Keeps def args h

  pub compile_fn_call-Keeps :
      (name : Name) (args : Option (List (Action R)))
      → OptionKeep args
      → Keeps (compile_fn_call name args)
  unfolding compile_fn_call
  compile_fn_call-Keeps name args h frame c i = search (frame_rules, switch) depth 12
    where
      switch : (kind : LocType) → Keeps (call_case kind name args)
      switch nord.Symbol.loc_memory = native-Keeps name args h
      switch nord.Symbol.loc_builtin = builtin-Keeps name args h
      switch nord.Symbol.loc_undef = builtin-Keeps name args h
      switch _ = λ frame c i. search frame_rules

  compile_statements-Keeps :
      (actions : List (Action R)) (result : Compiled)
      → AllKeep actions
      → Keeps (compile_statements actions result)
  unfolding compile_statements
  compile_statements-Keeps [] result h frame c i = search frame_rules
  compile_statements-Keeps (action ∷ actions) result (h, hs) frame c i =
      next-Ends _ _ (h frame c i) λ r c₁ i₁. compile_statements-Keeps actions r hs frame c₁ i₁

  pub open_scope-Ends :
      {frame : Frame R} (c : CompileContext R)
      → Inside frame c
      → Ends (deeper frame) Any (open_scope c)
  unfolding open_scope
  open_scope-Ends c i = inside tt (record {
    current = i.current;
    region = i.region;
    depth = ap suc i.depth;
    constants = i.constants;
    values = i.values;
    code = i.code;
  })

  -- A change of the block, and the change back.
  enter-Ends :
      {frame : Frame R} (block n : ℕ) (c : CompileContext R)
      → block ≡ n
      → Inside frame c
      → Ends (within n frame) Any (enter block c)
  unfolding enter
  enter-Ends block n c e i = inside tt (record {
    current = e;
    region = i.region;
    depth = i.depth;
    constants = i.constants;
    values = i.values;
    code = i.code;
  })

  pub close_scope-Ends :
      {frame : Frame R} (c : CompileContext R)
      → Inside (deeper frame) c
      → Ends frame Any (close_scope c)
  unfolding close_scope
  close_scope-Ends {frame = frame} c i = at c.parents i.depth
    where
      at :
          (ps : List SymbolMap)
          → length ps ≡ suc frame.depth
          → Ends {R = R} frame Any
              (bind (scopes_above ps) λ r. ok (tt, record c { symbols = r.0; parents = r.1 }))
      at [] e = stops
      at (parent ∷ above) e = inside tt (record {
        current = i.current;
        region = i.region;
        depth = omega (arith, e);
        constants = i.constants;
        values = i.values;
        code = i.code;
      })

  pub statement_list-Keeps :
      (actions : List (Action R)) → AllKeep actions → Keeps (compile_statement_list actions)
  unfolding compile_statement_list continue
  statement_list-Keeps actions h frame c i =
      continue-Ends (deeper frame) _ _ (open_scope-Ends c i) λ _ c₁ _ i₁.
        continue-Ends (deeper frame) _ _ (new_block-Ends c₁ i₁) λ inner c₂ _ i₂.
          continue-Ends (within inner (deeper frame)) _ _ (enter-Ends inner inner c₂ refl i₂)
            λ _ c₃ _ i₃.
              continue-Ends _ _ _ (compile_statements-Keeps actions _ h _ c₃ i₃) λ result c₄ _ i₄.
                continue-Ends (deeper frame) _ _ (enter-Ends _ frame.current c₄ i₁.current i₄)
                  λ _ c₅ _ i₅.
                    continue-Ends frame _ _ (close_scope-Ends c₅ i₅) λ u c₆ _ i₆. inside tt i₆

  pub code_of-Ends :
      {frame : Frame R} (result : Compiled) (c : CompileContext R)
      → Inside frame c
      → Ends frame Listed (code_of result c)
  code_of-Ends result c i = continue-Ends _ _ _ (read-Ends c i _) λ n c₁ _ i₁. block_at-Ends c₁ i₁ n

  bump-Keeps : (b : Bool) → Keeps {R = R} (branch b next_rp (pure tt))
  bump-Keeps b frame c i = search frame_rules

  merge-Keeps : (code : CodeBlock Instruction) → Listed code → Keeps {R = R} (merge code)
  merge-Keeps code listed frame c i = merge-Ends c i code listed

  pub if_statement-Keeps :
      (condition : Action R) (body : List (Action R))
      → Keeps condition
      → AllKeep body
      → Keeps (compile_if_statement condition body)
  unfolding compile_if_statement continue
  if_statement-Keeps condition body h k frame c i = next-Ends _ _ (h frame c i) λ tested c₁ i₁.
      next-Ends _ _ (statement_list-Keeps body k frame c₁ i₁) λ if_body c₂ i₂.
        next-Ends _ _ (read-Ends c₂ i₂ _) λ location c₃ i₃.
          next-Ends _ _ (bump-Keeps _ frame c₃ i₃) λ u c₄ i₄.
            continue-Ends _ _ _ (code_of-Ends if_body c₄ i₄)
              λ code c₅ listed i₅. search (frame_rules, merge-Keeps code listed) depth 30

  define_variable-Keeps :
      (name : Option Name) (register : ℕ) → Keeps {R = R} (define_variable name register)
  define_variable-Keeps none register frame c i = search frame_rules
  define_variable-Keeps (some name) register frame c i = search frame_rules

  loop-Keeps :
      (name : Option Name) (iterator : ℕ) (body : List (Action R))
      → AllKeep body
      → Keeps (compile_loop name iterator body)
  unfolding compile_loop continue
  loop-Keeps name iterator body k frame c i = next-Ends _ _ (next_rp-Ends c i) λ _ c₁ i₁.
      next-Ends _ _ (next_rp-Ends c₁ i₁) λ _ c₂ i₂. next-Ends _ _ (write-Ends c₂ i₂ _) λ _ c₃ i₃.
        next-Ends _ _ (define_variable-Keeps name _ frame c₃ i₃) λ _ c₄ i₄.
          next-Ends _ _ (statement_list-Keeps body k frame c₄ i₄) λ for_body c₅ i₅.
            next-Ends _ _ (write-Ends c₅ i₅ _) λ _ c₆ i₆.
              continue-Ends _ _ _ (code_of-Ends for_body c₆ i₆)
                λ code c₇ listed i₇. search (frame_rules, merge-Keeps code listed) depth 30

  pub for_statement-Keeps :
      (name : Option Name) (iterable : Action R) (body : List (Action R))
      → Keeps iterable
      → AllKeep body
      → Keeps (compile_for_statement name iterable body)
  unfolding compile_for_statement continue
  for_statement-Keeps name iterable body h k frame c i =
      next-Ends _ _ (h frame c i) λ collection c₁ i₁.
        next-Ends _ _ (read-Ends c₁ i₁ _) λ over c₂ i₂.
          next-Ends _ _ (write_out_builtin-Keeps _ 1 _ frame c₂ i₂) λ iter c₃ i₃.
            next-Ends _ _ (read-Ends c₃ i₃ _) λ iterator c₄ i₄.
              next-Ends _ _ (next_rp-Ends c₄ i₄) λ _ c₅ i₅.
                continue-Ends (deeper frame) _ _ (open_scope-Ends c₅ i₅) λ _ c₆ _ i₆.
                  continue-Ends (deeper frame) _ _ (loop-Keeps name iterator body k _ c₆ i₆)
                    λ _ c₇ _ i₇. next-Ends _ _ (close_scope-Ends c₇ i₇) λ _ c₈ i₈. inside tt i₈

  pub compile_module-Keeps : (name : Name) → Keeps {R = R} (compile_module name)
  unfolding compile_module
  compile_module-Keeps name frame c i = search frame_rules depth 15
