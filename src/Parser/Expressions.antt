-- ===== src/Parser/Expressions.antt =====
-- src/compiler/parse.c: the expressions, from `expression_list` down to `function_call`.
use nord.Prelude.{ℕ, zero, suc, false, not, some, List, [], ◌∷◌}
use nord.Prelude.Result.{Result, ok, fault, null_pointer, indeterminate, exits, out_of_fuel}
use nord.Token.{Token, TokenType, has_type}
use nord.Lexer.{peek, accept}
use nord.Syntax.{
  Ast, Asts, Location, null, node, nil, cons, binary, unary, group, stmt_list, expr_list, tuple,
  size, is_null, location_of, locate, list_expr_append, make_assign_expr, make_binary_expr,
  make_unary_expr, make_literal_expr, make_group_expr, make_call_expr, make_list_expr,
  make_range_expr,
}
use nord.Prelude.State.{pure, lift, fail, ◌>>=◌, ◌>>◌, branch, check}
use nord.Parser.{
  Parser, Callees, peek_is, match_any, put_back, position_of, value_of, otherwise, literal_at, join,
}

-- `left->type = AST_EXPR_LIST`, on a statement list
abbrev pub as_expr_list : Ast → Result Ast
as_expr_list null = fault null_pointer
as_expr_list (node l (stmt_list capacity items)) = ok (node l (expr_list capacity items))
as_expr_list (node l n) = fault indeterminate

-- The loop of `expression_list`; each round takes fuel.
unfoldable pub expressions_from : Callees → ℕ → Ast → Parser Ast
expressions_from call zero left = fail out_of_fuel
expressions_from call (suc fuel) left = do
  comma ← peek_is TokenType.comma
  branch comma
      (do
        _ ← accept
        expr ← call.call_expression
        check (not (is_null expr))
        left' ← lift (list_expr_append left expr)
        expressions_from call fuel left')
      (pure left)

unfoldable pub expression_list : Callees → Parser Ast
expression_list call = do
  expr ← call.call_expression
  branch (is_null expr) (pure null) do
    list ← lift (list_expr_append (make_list_expr 10) expr)
    left ← lift (as_expr_list list)
    expressions_from call (suc call.fuel) left

unfoldable pub function_call : Callees → Parser Ast
function_call call = do
  named ← peek_is TokenType.identifier
  branch named
      (do
        name ← accept
        fn_name ← value_of name
        opens ← peek_is TokenType.l_paren
        branch opens
            (do
              _ ← accept
              args ← expression_list call
              close ← accept
              check (has_type TokenType.r_paren close)
              end ← position_of
              pure (
                  locate (record { start = some name.start; end = some end })
                    (make_call_expr fn_name args)))
            (do put_back; pure null))
      (pure null)

unfoldable pub member_access : Callees → Parser Ast
member_access call = do
  named ← peek_is TokenType.identifier
  branch named
      (do
        name ← accept
        value ← value_of name
        dot ← peek_is TokenType.dot
        branch dot
            (do
              operator ← accept
              callee ← function_call call
              right ← otherwise callee call.call_member_access
              pure (make_binary_expr (literal_at name value) operator right))
            (do put_back; pure null))
      (pure null)

-- A literal that has no place.
abbrev pub bare_literal : Token → List ℕ → Ast
bare_literal t v = node nord.Syntax.unset (nord.Syntax.literal t (some v))

unfoldable pub range : Parser Ast
range = do
  start ← match_any (TokenType.identifier ∷ TokenType.number ∷ [])
  branch start
      (do
        first ← accept
        dots ← peek_is TokenType.dot_dot
        branch dots
            (do
              begin ← value_of first
              _ ← accept
              more ← match_any (TokenType.identifier ∷ TokenType.number ∷ [])
              check more
              last ← accept
              end ← value_of last
              pure (make_range_expr (bare_literal first begin) (bare_literal last end)))
            (do put_back; pure null))
      (pure null)

-- A list in parentheses, at its place: one item is a group, which has no place of its own.
abbrev pub enclosed : Location → Ast → Result Ast
enclosed l null = fault null_pointer
enclosed l (node k (expr_list capacity (cons item nil))) = ok (make_group_expr item)
enclosed l (node k (expr_list capacity items)) = ok (node l (tuple capacity items))
enclosed l (node k n) = fault indeterminate

unfoldable pub parse_tuple : Callees → Parser Ast
parse_tuple call = do
  opens ← peek_is TokenType.l_paren
  branch opens
      (do
        paren ← accept
        list ← expression_list call
        check (not (is_null list))
        close ← accept
        expr ← lift (enclosed (record { start = some paren.start; end = some close.end }) list)
        branch (has_type TokenType.r_paren close) (pure expr) do _ ← value_of close; fail exits)
      (pure null)

abbrev literals : List TokenType
literals =
    TokenType.identifier ∷ TokenType.number ∷ TokenType.float ∷ TokenType.string ∷ TokenType.true_
    ∷ TokenType.false_ ∷ TokenType.nil_ ∷ []

abbrev pub literal_or : Parser Ast → Parser Ast
literal_or p = do
  found ← match_any literals
  branch found (do tok ← accept; value ← value_of tok; pure (literal_at tok value)) p

unfoldable pub primary : Callees → Parser Ast
primary call = do
  callee ← function_call call
  access ← otherwise callee (member_access call)
  interval ← otherwise access range
  otherwise interval (literal_or (parse_tuple call))

unfoldable pub parse_unary : Callees → Parser Ast
parse_unary call = do
  prefix ← match_any (TokenType.bang ∷ TokenType.minus ∷ [])
  branch prefix
      (do
        operator ← accept
        operand ← call.call_unary
        l ← lift (location_of operand)
        pure (
            locate (record { start = some operator.start; end = l.end })
              (make_unary_expr operator operand)))
      (do
        p ← primary call
        branch (is_null p)
            (do
              bad ← peek_is TokenType.invalid
              branch bad (do t ← peek; _ ← value_of t; fail exits) (pure null))
            (pure p))

-- The loop of a level of binary operators, whose operands are read by `operand`.
unfoldable pub operators_from : List TokenType → Parser Ast → ℕ → Ast → Parser Ast
operators_from types operand zero left = fail out_of_fuel
operators_from types operand (suc fuel) left = do
  found ← match_any types
  branch found
      (do
        operator ← accept
        right ← operand
        joined ← join left operator right
        operators_from types operand fuel joined)
      (pure left)

-- The loop of `term_md`: a slash before `exported` is put back, and what was read is dropped.
unfoldable pub factors_from : Callees → ℕ → Ast → Parser Ast
factors_from call zero left = fail out_of_fuel
factors_from call (suc fuel) left = do
  found ← match_any (TokenType.slash ∷ TokenType.asterisk ∷ [])
  branch found
      (do
        operator ← accept
        export ←
            branch (has_type TokenType.slash operator) (peek_is TokenType.exported) (pure false)
        branch export (do put_back; pure null)
            (do
              right ← parse_unary call
              joined ← join left operator right
              factors_from call fuel joined))
      (pure left)

unfoldable pub term_md : Callees → Parser Ast
term_md call = do left ← parse_unary call; factors_from call (suc call.fuel) left

unfoldable pub term : Callees → Parser Ast
term call = do
  left ← term_md call
  operators_from (TokenType.minus ∷ TokenType.plus ∷ TokenType.modulo ∷ []) (term_md call)
      (suc call.fuel) left

unfoldable pub comparison : Callees → Parser Ast
comparison call = do
  left ← term call
  operators_from
      (TokenType.greater ∷ TokenType.greater_equal ∷ TokenType.less ∷ TokenType.less_equal ∷ [])
      (term call) (suc call.fuel) left

unfoldable pub equality : Callees → Parser Ast
equality call = do
  left ← comparison call
  operators_from (TokenType.bang_equal ∷ TokenType.equal_equal ∷ []) (comparison call)
      (suc call.fuel) left

unfoldable pub conjunction : Callees → Parser Ast
conjunction call = do
  left ← equality call
  operators_from (TokenType.and_ ∷ TokenType.or_ ∷ []) (equality call) (suc call.fuel) left

unfoldable pub assignment : Callees → Parser Ast
assignment call = do
  named ← peek_is TokenType.identifier
  branch named
      (do
        name ← accept
        equal ← peek_is TokenType.equal
        branch equal
            (do
              _ ← accept
              value ← call.call_expression
              text ← value_of name
              pure (
                  locate (record { start = some name.start; end = some name.end })
                    (make_assign_expr text value)))
            (do put_back; conjunction call))
      (conjunction call)
