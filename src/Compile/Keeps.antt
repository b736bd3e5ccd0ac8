-- ===== src/Compile/Keeps.antt =====
-- src/compiler/compile.c: the functions for values and operators, and the frame they run in.
use nord.Prelude.{ℕ, zero, suc, ◌≡◌, refl, Option, none, some, List, [], ◌∷◌, ap, ◌∙◌, length}
use nord.Prelude.State.{continue, lift}
use nord.Prelude.Result.{Result, ok, fault, bind}
use nord.Prelude.Holds.{Holds, value, none_left, then-Holds}
use nord.Token.{Token, TokenType}
use nord.Syntax.{Ast}
use nord.Symbol.{Symbol, SymbolMap, Name, symbol_map_set}
use nord.Value
use nord.Value.{Value, ValueType}
use nord.Machine.{Opcode}
use nord.Compile.{Compiler, Compiled, CompileContext, set_last, define_global, push_args}
use nord.Compile.Literals.{
  Action, write_out_builtin, compile_literal, compile_identifier, load_constant, load_variable,
  builtin_symbol,
}
use nord.Compile.Values.{
  compile_values, compile_tuple, compile_range, unary_code, compile_unary, comparison,
  comparison_or_equal, binary_case, compile_dot, compile_binary, assign_value, compile_assign,
  compile_declare,
}
use nord.Codegen.{CompileResult, compile_binary_comparison}
use nord.Codegen.Blocks.{compile_binary_comparison_lem}
use nord.Compile.Values.{merge_result}
use nord.Compile.Frame.{
  merge-Ends, Frame, Inside, Ends, inside, stops, Any, Any-Holds, Keeps, check-Ends, look_up-Ends,
  frame_rules, next-Ends, read-Ends,
}

set_last-Holds :
    (map : SymbolMap) (parents : List SymbolMap) (symbol : Symbol)
    → Holds (λ r. length r.1 ≡ length parents) (set_last map parents symbol)
unfolding set_last
set_last-Holds map [] symbol =
    then-Holds {Q = Any} (Any-Holds (symbol_map_set map symbol)) λ m _. value refl
set_last-Holds map (parent ∷ above) symbol =
    then-Holds (set_last-Holds parent above symbol) λ r e. value (ap suc e)

module _ {R : Type 0} where
  push_args-Keeps : (n : ℕ) (args : List ℕ) → Keeps {R = R} (push_args n args)
  unfolding push_args
  push_args-Keeps zero args frame c i = search frame_rules
  push_args-Keeps (suc n) args frame c i = search (frame_rules, push_args-Keeps n args) depth 12

  load_constant-Keeps : (v : Value R) (type : ValueType) → Keeps {R = R} (load_constant v type)
  load_constant-Keeps v type frame c i = search frame_rules depth 12

  load_variable-Keeps : (symbol : Symbol) → Keeps {R = R} (load_variable symbol)
  load_variable-Keeps symbol frame c i = search frame_rules depth 12

  define_global-Keeps : (symbol : Symbol) → Keeps {R = R} (define_global symbol)
  unfolding define_global
  define_global-Keeps symbol frame c i = at _ (set_last-Holds c.symbols c.parents symbol)
    where
      at :
          (r : Result (SymbolMap × List SymbolMap))
          → Holds (λ m. length m.1 ≡ length c.parents) r
          → Ends frame Any (bind r λ m. ok (tt, record c { symbols = m.0; parents = m.1 }))
      at (ok m) (value e) = inside tt (record {
        current = i.current;
        region = i.region;
        depth = e ∙ i.depth;
        constants = i.constants;
        values = i.values;
        code = i.code;
      })
      at (fault why) none_left = stops

  builtin_symbol-Keeps :
      (name : Name) (symbol : Symbol) → Keeps {R = R} (builtin_symbol name symbol)
  builtin_symbol-Keeps name symbol frame c i = search (frame_rules, define_global-Keeps) depth 15

  pub write_out_builtin-Keeps :
      (name : Name) (n : ℕ) (args : List ℕ) → Keeps {R = R} (write_out_builtin name n args)
  unfolding write_out_builtin
  write_out_builtin-Keeps name n args frame c i =
      search (frame_rules, builtin_symbol-Keeps, push_args-Keeps) depth 20

  compile_identifier-Keeps : (name : Name) → Keeps {R = R} (compile_identifier name)
  unfolding compile_identifier
  compile_identifier-Keeps name frame c i = search (frame_rules, load_variable-Keeps) depth 20

  pub compile_literal-Keeps :
      (atof : List ℕ → R) (type : TokenType) (text : List ℕ)
      → Keeps (compile_literal atof type text)
  unfolding compile_literal
  compile_literal-Keeps atof TokenType.identifier text frame c i =
      compile_identifier-Keeps text frame c i
  compile_literal-Keeps atof TokenType.string text frame c i = load_constant-Keeps _ _ frame c i
  compile_literal-Keeps atof TokenType.float text frame c i = load_constant-Keeps _ _ frame c i
  compile_literal-Keeps atof TokenType.number text frame c i = search frame_rules depth 12
  compile_literal-Keeps atof TokenType.true_ text frame c i = search frame_rules depth 12
  compile_literal-Keeps atof TokenType.false_ text frame c i = search frame_rules depth 12
  compile_literal-Keeps atof TokenType.nil_ text frame c i = search frame_rules depth 12
  compile_literal-Keeps atof _ text frame c i = search frame_rules

  -- Every action of a list keeps every frame.
  abbrev pub AllKeep : List (Action R) → Type 0
  AllKeep [] = Unit
  AllKeep (action ∷ actions) = Keeps action × AllKeep actions

  pub compile_values-Keeps :
      (actions : List (Action R)) → AllKeep actions → Keeps (compile_values actions)
  unfolding compile_values
  compile_values-Keeps [] h frame c i = search frame_rules
  compile_values-Keeps (action ∷ actions) (h, hs) frame c i =
      search (frame_rules, h, compile_values-Keeps actions hs) depth 20

  pub compile_tuple-Keeps :
      (actions : List (Action R)) → AllKeep actions → Keeps (compile_tuple actions)
  unfolding compile_tuple
  compile_tuple-Keeps actions h frame c i =
      search (frame_rules, compile_values-Keeps actions h, push_args-Keeps) depth 30

  module _ (first second : Action R) (h : Keeps first) (k : Keeps second) where
    pub compile_range-Keeps : Keeps (compile_range first second)
    unfolding compile_range
    compile_range-Keeps frame c i = search (frame_rules, h, k, write_out_builtin-Keeps) depth 30

  pub compile_unary-Keeps :
      (type : TokenType) (operand : Action R) → Keeps operand → Keeps (compile_unary type operand)
  unfolding compile_unary
  compile_unary-Keeps type operand h frame c i = search (frame_rules, h, code type) depth 30
    where
      code : (type : TokenType) (rp right : ℕ) → Keeps {R = R} (unary_code type rp right)
      code TokenType.minus rp right frame c i = search frame_rules
      code TokenType.bang rp right frame c i = search frame_rules
      code TokenType.return rp right frame c i = search frame_rules
      code _ rp right frame c i = search frame_rules

  -- A comparison is compiled, and its code merged.
  compared-Ends :
      {B : Type 0} {frame : Frame R} (op : Opcode) (base condition left right : ℕ)
      (next : CompileResult → Unit {0} → Compiler R B) (c : CompileContext R)
      → Inside frame c
      → ((result : CompileResult) (c' : CompileContext R)
          → Inside frame c'
          → Ends frame Any (next result tt c'))
      → Ends frame Any (
          continue
            (lift (compile_binary_comparison op base condition left right) c)
            λ result s. continue (merge_result result s) (next result))
  unfolding continue lift
  compared-Ends {frame = frame} op base condition left right next c i h =
      let (block, ran, listed) = compile_binary_comparison_lem op base condition left right in
      rw ran (next-Ends _ _ (merge-Ends c i block (_, listed)) λ u c' i'. h _ c' i')

  comparison-Keeps :
      (op : Opcode) (condition left right : ℕ) → Keeps {R = R} (comparison op condition left right)
  unfolding continue
  comparison-Keeps op condition left right frame c i =
      compared-Ends op _ condition left right _ c i λ result c₁ i₁. search frame_rules depth 15

  comparison_or_equal-Keeps :
      (condition left right : ℕ) → Keeps {R = R} (comparison_or_equal condition left right)
  unfolding continue
  comparison_or_equal-Keeps condition left right frame c i =
      compared-Ends _ _ condition left right _ c i λ first c₁ i₁.
        compared-Ends _ _ 1 left right _ c₁ i₁ λ second c₂ i₂. search frame_rules depth 15

  binary_case-Keeps :
      (type : TokenType) (left right : Compiled) → Keeps {R = R} (binary_case type left right)
  unfolding binary_case
  binary_case-Keeps TokenType.less_equal left right frame c i =
      search (frame_rules, comparison_or_equal-Keeps) depth 15
  binary_case-Keeps TokenType.greater_equal left right frame c i =
      search (frame_rules, comparison_or_equal-Keeps) depth 15
  binary_case-Keeps _ left right frame c i = search (frame_rules, comparison-Keeps) depth 15

  compile_dot-Keeps :
      (left right : Ast) (call : Action R) → Keeps call → Keeps (compile_dot left right call)
  unfolding compile_dot continue
  compile_dot-Keeps left right call h frame c i = next-Ends _ _ (read-Ends c i _) λ name c₁ i₁.
      next-Ends _ _ (check-Ends c₁ i₁ _) λ u c₂ i₂.
        next-Ends _ _ (look_up-Ends c₂ i₂ name)
          λ symbol c₃ i₃. next-Ends _ _ (h frame _ (within symbol i₃)) λ result c₄ i₄. stops
    where
      within :
          {c : CompileContext R} (symbol : Symbol)
          → Inside frame c
          → Inside frame (record c { member_context = symbol })
      within symbol i = record {
        current = i.current;
        region = i.region;
        depth = i.depth;
        constants = i.constants;
        values = i.values;
        code = i.code;
      }

  pub compile_binary-Keeps :
      (operator : Token) (left right : Ast) (first second : Action R)
      → Keeps first
      → Keeps second
      → Keeps (compile_binary operator left right first second)
  unfolding compile_binary
  compile_binary-Keeps operator left right first second h k frame c i =
      search (frame_rules, h, k, compile_dot-Keeps left right second k, binary_case-Keeps) depth 20

  assign_value-Keeps :
      (symbol : Symbol) (v : Compiled) (location : ℕ) (type : ValueType)
      → Keeps {R = R} (assign_value symbol v location type)
  assign_value-Keeps symbol v location nord.Value.val_function frame c i =
      search frame_rules depth 15
  assign_value-Keeps symbol v location _ frame c i = search frame_rules depth 15

  pub compile_assign-Keeps :
      (name : Name) (action : Action R) → Keeps action → Keeps (compile_assign name action)
  unfolding compile_assign
  compile_assign-Keeps name action h frame c i =
      search (frame_rules, h, assign_value-Keeps) depth 20

  abbrev pub MaybeKeep : Option (Action R) → Type 0
  MaybeKeep none = Unit
  MaybeKeep (some action) = Keeps action

  pub compile_declare-Keeps :
      (var_type : Token) (name : Name) (initial : Option (Action R))
      → MaybeKeep initial
      → Keeps (compile_declare var_type name initial)
  unfolding compile_declare
  compile_declare-Keeps var_type name none h frame c i = search frame_rules depth 15
  compile_declare-Keeps var_type name (some action) h frame c i = search (frame_rules, h) depth 20
