-- ===== src/Parser/Primary.antt =====
-- src/compiler/parse.c: the trees of the lists, the calls and the parentheses.
use nord.Prelude.{ℕ, zero, suc, arith}
use nord.Prelude.Holds.{Holds, value, none_left}
use nord.Token.{TokenType}
use nord.Lexer.{ScanContext}
use nord.Syntax.{
  Ast, Asts, Location, snoc, null, node, nil, cons, expr_list, stmt_list, size, is_null,
  list_expr_append, append_items, make_list_expr,
}
use nord.Parser.{Parser, Parser, Callees}
use nord.Parser.Expressions.{
  primary, literal_or, expressions_from, expression_list, function_call, member_access, range,
  enclosed, parse_tuple, primary, literal_or, as_expr_list,
}
use nord.Parser.Gives.{
  Gives, reads, stops, continue-Gives, next-Gives, branch-Gives, lift-Gives, check-Gives,
  peeked-Gives, otherwise-Gives, Reads, not-true,
}
use nord.Parser.Tree.{
  constant, lower_or, append-Holds, Formed, Arguments, nothing, found, none_given, given, empty,
  one_more, constant, grouped, listed, interval, called, member, lower_or, present, snoc-All,
  size-snoc,
}

list_expr_append-Arguments :
    {left t : Ast} → Arguments left → Formed 1 t → Holds Arguments (list_expr_append left t)
unfolding list_expr_append
list_expr_append-Arguments none_given f = none_left
list_expr_append-Arguments {t = t} (given {l} {capacity} {items} filled room all) f =
    append-Holds capacity items t (λ r. node l (expr_list (r.0) (r.1)))
      λ k h. given (rw size-snoc (omega arith)) h (snoc-All items all f)

-- `as_expr_list` after the first append
first-Holds :
    {t : Ast}
    → Formed 1 t
    → Holds (λ list. Holds Arguments (as_expr_list list)) (list_expr_append (make_list_expr 10) t)
unfolding list_expr_append
first-Holds {t} f =
    append-Holds 10 nil t (λ r. node nord.Syntax.unset (stmt_list (r.0) (r.1)))
      λ k room. value (given (unfold size in omega arith) room (one_more f empty))

enclosed-Holds : {t : Ast} (l : Location) → Arguments t → Holds (Formed 8) (enclosed l t)
unfolding size
enclosed-Holds l none_given = none_left
enclosed-Holds l (given h room (one_more f empty)) = value (grouped (omega arith) f)
enclosed-Holds l (given h room (one_more f (one_more g all))) =
    value (listed (omega arith) (unfold size in omega arith) room (one_more f (one_more g all)))
enclosed-Holds l (given h room empty) = absurd (omega arith)

pub record Sound (call : Callees) : Type 0 where
  pub expression : Reads 1 call.call_expression
  pub unary : Reads 7 call.call_unary
  pub member_access : Reads 9 call.call_member_access
  pub statement : Reads 0 call.call_statement

module _ (call : Callees) (sound : Sound call) where
  expressions_from-Gives :
      (fuel : ℕ) (left : Ast)
      → Arguments left
      → (c : ScanContext) → Gives Arguments (expressions_from call fuel left c)
  unfolding expressions_from
  expressions_from-Gives zero left a c = stops
  expressions_from-Gives (suc fuel) left a c = next-Gives _ _ λ comma c₁.
      branch-Gives comma _ _ c₁
        (λ _. next-Gives _ _ λ t c₂. continue-Gives _ _ (sound.expression c₂) λ expr c₃ f.
          check-Gives _ _ c₃ λ e c₄.
            continue-Gives _ _
              (lift-Gives _ c₄ (list_expr_append-Arguments a (present f (not-true e))))
              λ left' c₅ b. expressions_from-Gives fuel left' b c₅)
        (λ _. reads a)

  pub expression_list-Gives : (c : ScanContext) → Gives Arguments (expression_list call c)
  unfolding expression_list
  expression_list-Gives c = continue-Gives _ _ (sound.expression c) λ expr c₁ f.
      branch-Gives (is_null expr) _ _ c₁ (λ _. reads none_given)
        λ e. continue-Gives _ _ (lift-Gives _ c₁ (first-Holds (present f e))) λ list c₂ a.
          continue-Gives _ _ (lift-Gives _ c₂ a)
            λ left c₃ b. expressions_from-Gives (suc call.fuel) left b c₃

  pub function_call-Reads : Reads 9 (function_call call)
  unfolding function_call
  function_call-Reads c = next-Gives _ _ λ named c₁.
      branch-Gives named _ _ c₁
        (λ _. next-Gives _ _ λ name c₂. next-Gives _ _ λ fn_name c₃. next-Gives _ _ λ opens c₄.
          branch-Gives opens _ _ c₄
            (λ _. next-Gives _ _ λ t c₅. continue-Gives _ _ (expression_list-Gives c₅) λ args c₆ a.
              next-Gives _ _ λ close c₇.
                next-Gives _ _
                  λ ok_ c₈. next-Gives _ _ λ end c₉. reads (found (called (omega arith) a)))
            (λ _. next-Gives _ _ λ t c₅. reads nothing))
        (λ _. reads nothing)

  pub member_access-Reads : Reads 9 (member_access call)
  unfolding member_access
  member_access-Reads c = next-Gives _ _ λ named c₁.
      branch-Gives named _ _ c₁
        (λ _. next-Gives _ _ λ name c₂. next-Gives _ _ λ text c₃.
          peeked-Gives _ _ TokenType.dot c₃
            (λ operator dot c₅. continue-Gives _ _ (function_call-Reads c₅) λ callee c₆ f.
              continue-Gives _ _ (otherwise-Gives _ c₆ f (sound.member_access c₆))
                λ right c₇ g. reads (found (member (omega arith) dot g)))
            (λ c₄. next-Gives _ _ λ t c₅. reads nothing))
        (λ _. reads nothing)

  pub parse_tuple-Reads : Reads 8 (parse_tuple call)
  unfolding parse_tuple
  parse_tuple-Reads c = next-Gives _ _ λ opens c₁.
      branch-Gives opens _ _ c₁
        (λ _. next-Gives _ _ λ paren c₂. continue-Gives _ _ (expression_list-Gives c₂) λ list c₃ a.
          check-Gives _ _ c₃ λ _ c₄. next-Gives _ _ λ close c₅.
            continue-Gives _ _ (lift-Gives _ c₅ (enclosed-Holds _ a)) λ expr c₆ f.
              branch-Gives _ _ _ c₆ (λ _. reads (found f)) λ _. next-Gives _ _ λ t c₇. stops)
        (λ _. reads nothing)

pub range-Reads : Reads 8 range
unfolding range
range-Reads c = next-Gives _ _ λ start c₁.
    branch-Gives start _ _ c₁
      (λ _. next-Gives _ _ λ first c₂. next-Gives _ _ λ dots c₃.
        branch-Gives dots _ _ c₃
          (λ _. next-Gives _ _ λ begin c₄. next-Gives _ _ λ t c₅. next-Gives _ _ λ more c₆.
            next-Gives _ _ λ ok_ c₇.
              next-Gives _ _
                λ last c₈. next-Gives _ _ λ end c₉. reads (found (interval (omega arith))))
          (λ _. next-Gives _ _ λ t c₄. reads nothing))
      (λ _. reads nothing)

module _ (call : Callees) (sound : Sound call) where
  literal_or-Reads : (p : Parser Ast) → Reads 8 p → Reads 8 (literal_or p)
  literal_or-Reads p h c = next-Gives _ _ λ found_ c₁.
      branch-Gives found_ _ _ c₁
        (λ _.
          next-Gives _ _
            λ tok c₂. next-Gives _ _ λ value c₃. reads (found (constant (omega arith))))
        (λ _. h c₁)

  pub primary-Reads : Reads 8 (primary call)
  unfolding primary
  primary-Reads c = continue-Gives _ _ (function_call-Reads call sound c) λ callee c₁ f.
      continue-Gives _ _ (otherwise-Gives _ c₁ f (member_access-Reads call sound c₁)) λ access c₂ g.
        continue-Gives _ _ (otherwise-Gives _ c₂ (lower_or (omega arith) g) (range-Reads c₂))
          λ interval c₃ h.
            otherwise-Gives _ c₃ h (literal_or-Reads _ (parse_tuple-Reads call sound) c₃)
