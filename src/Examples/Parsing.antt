-- ===== src/Examples/Parsing.antt =====
-- Tests and witnesses of the parser.
use nord.Prelude.{ℕ, ◌+◌, ◌≤◌, ◌≡◌, ◌≢◌, ◌⊎◌, refl, some, List, [], ◌∷◌, length}
use nord.Prelude.State.{continue, branch, lift, check}
use nord.Prelude.Result.{Fault, ok, fault, null_pointer, out_of_fuel, ◌>>=◌}
use nord.Token
use nord.Token.{TokenType, has_type}
use nord.Lexeme.{lex_one}
use nord.Lexer.{ScanContext, scan, peek, accept, backup, is_cached, match, token_value, initial}
use nord.Syntax.{
  Ast, Location, node, binary, stmt_list, if_stmt, cons, nil, unset, list_expr_append, append_items,
  size,
}
use nord.Parser.{literal_at}
use nord.Parser.Tree.{Block}
use nord.Parser.Shape.{parse-Block}
use nord.Parser.Termination.{parse-ends}
use nord.Parser.Expressions.{
  expressions_from, expression_list, function_call, member_access, range, parse_tuple, primary,
  parse_unary, operators_from, factors_from, term_md, term, comparison, equality, conjunction,
  assignment,
}
use nord.Parser.Statements.{
  statements_from, statement_list, skip_lines, statement_block, anonymous_decl, expression,
  variable_decl, export_prefix, function_decl, import_statement, if_statement, for_variable,
  for_statement, any_statement, statement, callees, parse,
}

-- "1-2*3-4", which is (1 - (2 * 3)) - 4
abbrev arithmetic_text : List ℕ
arithmetic_text = b'1' ∷ b'-' ∷ b'2' ∷ b'*' ∷ b'3' ∷ b'-' ∷ b'4' ∷ 0 ∷ []

abbrev digit : ℕ → ℕ → Ast
digit position byte =
    literal_at (record { type = nord.Token.number; start = position; end = position + 1 })
      (byte ∷ [])

abbrev operation : TokenType → ℕ → Location → Ast → Ast → Ast
operation type position location left right =
    node location (binary (record { type = type; start = position; end = position + 1 }) left right)

abbrev arithmetic_tree : Ast
arithmetic_tree =
    operation nord.Token.minus 5 (record { start = some 0; end = some 7 })
      (operation nord.Token.minus 1 (record { start = some 0; end = some 5 }) (digit 0 b'1')
        (operation nord.Token.asterisk 3 (record { start = some 2; end = some 5 }) (digit 2 b'2')
          (digit 4 b'3')))
      (digit 6 b'4')

arithmetic_parsed :
    parse (initial arithmetic_text)
    ≡ ok (
      node unset (stmt_list 10 (cons arithmetic_tree nil)),
      record {
        buffer = arithmetic_text;
        position = 7;
        previous = record { type = nord.Token.number; start = 6; end = 7 };
        lookahead = record { type = nord.Token.eof; start = 7; end = 8 };
      },
    )
unfolding parse scan lex_one peek accept backup is_cached match token_value list_expr_append size
    has_type expressions_from expression_list function_call member_access range parse_tuple primary
    parse_unary operators_from factors_from term_md term comparison equality conjunction assignment
    statements_from statement_list skip_lines statement_block anonymous_decl expression
    variable_decl export_prefix function_decl import_statement if_statement for_variable
    for_statement any_statement statement callees continue branch lift check append_items
arithmetic_parsed = refl

-- "if a b": the block is missing, so the condition is read again as the body.
condition_twice :
    (parse (initial (b'i' ∷ b'f' ∷ b' ' ∷ b'a' ∷ b' ' ∷ b'b' ∷ 0 ∷ [])) >>= λ r. ok (r.0)) ≡ (
      let a =
        literal_at (record { type = nord.Token.identifier; start = 3; end = 4 }) (b'a' ∷ []) in
      let b =
        literal_at (record { type = nord.Token.identifier; start = 5; end = 6 }) (b'b' ∷ []) in
      ok (node unset (stmt_list 10 (cons (node unset (if_stmt a a)) (cons b nil)))))
unfolding parse scan lex_one peek accept backup is_cached match token_value list_expr_append size
    has_type expressions_from expression_list function_call member_access range parse_tuple primary
    parse_unary operators_from factors_from term_md term comparison equality conjunction assignment
    statements_from statement_list skip_lines statement_block anonymous_decl expression
    variable_decl export_prefix function_decl import_statement if_statement for_variable
    for_statement any_statement statement callees continue branch lift check append_items
condition_twice = refl

-- "1+2/exported": the right operand of the sum is dropped, and read through a null pointer.
dropped_operand :
    parse (
      initial (
        b'1' ∷ b'+' ∷ b'2' ∷ b'/' ∷ b'e' ∷ b'x' ∷ b'p' ∷ b'o' ∷ b'r' ∷ b't' ∷ b'e' ∷ b'd' ∷ 0 ∷ []))
    ≡ fault null_pointer
unfolding parse scan lex_one peek accept backup is_cached match token_value list_expr_append size
    has_type expressions_from expression_list function_call member_access range parse_tuple primary
    parse_unary operators_from factors_from term_md term comparison equality conjunction assignment
    statements_from statement_list skip_lines statement_block anonymous_decl expression
    variable_decl export_prefix function_decl import_statement if_statement for_variable
    for_statement any_statement statement callees continue branch lift check append_items
dropped_operand = refl

parse-Block_example : Block (node unset (stmt_list 10 (cons arithmetic_tree nil)))
parse-Block_example = parse-Block (initial arithmetic_text) _ _ arithmetic_parsed

parse-ends_example :
    ((t : Ast) × (c : ScanContext) × (parse (initial arithmetic_text) ≡ ok (t, c))
      × (c.position ≤ length arithmetic_text))
    ⊎ ((why : Fault) × (parse (initial arithmetic_text) ≡ fault why) × (why ≢ out_of_fuel))
parse-ends_example = parse-ends arithmetic_text
