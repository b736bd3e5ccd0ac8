-- ===== src/Parser/Statements.antt =====
-- src/compiler/parse.c: the statements, and the closed parser.
use nord.Prelude.{ℕ, zero, suc, Bool, true, false, not, Option, none, some, List, [], ◌∷◌, length}
use nord.Prelude.Result.{Result, ok, exits, out_of_fuel}
use nord.Token.{Token, TokenType, has_type}
use nord.Lexer.{ScanContext, accept}
use nord.Syntax.{
  Ast, null, node, is_null, location_of, locate, list_expr_append, make_declare_expr,
  make_unary_expr, make_fn_expr, make_list_expr, make_if_expr, make_for_expr, make_module_expr,
}
use nord.Prelude.State.{pure, lift, fail, ◌>>=◌, ◌>>◌, branch, done, check}
use nord.Parser.{
  Parser, Callees, peek_is, peek_either, match_any, put_back, skip, value_of, otherwise,
}
use nord.Parser.Expressions.{expression_list, primary, parse_unary, member_access, assignment}

-- The loop of `statement_list`; each round takes fuel. Its test names the end token twice.
unfoldable pub statements_from : Callees → ℕ → Ast → Parser Ast
statements_from call zero statements = fail out_of_fuel
statements_from call (suc fuel) statements = do
  ends ← peek_either TokenType.eof TokenType.eof
  branch ends (pure statements) do
    eol ← peek_is TokenType.eol
    branch eol skip done
    current ← call.call_statement
    branch (is_null current) (pure statements) do
      statements' ← lift (list_expr_append statements current)
      statements_from call fuel statements'

unfoldable pub statement_list : Callees → Parser Ast
statement_list call = do
  current ← call.call_statement
  branch (is_null current) (pure (make_list_expr 10)) do
    statements ← lift (list_expr_append (make_list_expr 10) current)
    statements_from call (suc call.fuel) statements

-- `while (peek(context).type == TOK_EOL) accept(context);`, where each round takes fuel
unfoldable pub skip_lines : ℕ → Parser (Unit {0})
skip_lines zero = fail out_of_fuel
skip_lines (suc fuel) = do
  eol ← peek_is TokenType.eol
  branch eol (do _ ← accept; skip_lines fuel) done

-- The brace may be on the next line. Where there is none, one token is put back, the line end or
-- not.
unfoldable pub statement_block : Callees → Parser Ast
statement_block call = do
  eol ← peek_is TokenType.eol
  branch eol skip done
  opens ← peek_is TokenType.l_brace
  branch opens
      (do
        _ ← accept
        skip_lines (suc call.fuel)
        left ← statement_list call
        check (not (is_null left))
        close ← accept
        branch (has_type TokenType.r_brace close) (pure left) (fail exits))
      (do put_back; pure null)

-- The arguments and the body of a function, after its name.
abbrev pub function_rest : Callees → List ℕ → Bool → Parser Ast
function_rest call name exported = do
  opens ← peek_is TokenType.l_paren
  args ←
      branch opens
        (do
          _ ← accept
          args ← expression_list call
          close ← accept
          check (has_type TokenType.r_paren close)
          pure args)
        (pure null)
  body ← statement_block call
  check (not (is_null body))
  pure (make_fn_expr name exported args body)

abbrev pub anonymous_name : List ℕ
anonymous_name = b'_' ∷ b'_' ∷ b'a' ∷ b'n' ∷ b'o' ∷ b'n' ∷ b'y' ∷ b'm' ∷ b'o' ∷ b'u' ∷ b's' ∷ []

unfoldable pub anonymous_decl : Callees → Parser Ast
anonymous_decl call = do
  keyword ← peek_is TokenType.fn
  branch keyword
      (do
        _ ← accept
        unnamed ← peek_either TokenType.l_brace TokenType.l_paren
        branch unnamed (function_rest call anonymous_name false) do put_back; pure null)
      (pure null)

unfoldable pub expression : Callees → Parser Ast
expression call = do value ← assignment call; otherwise value (anonymous_decl call)

-- the end of the initial value, or else of the name
abbrev pub end_of : Token → Ast → Result (Option ℕ)
end_of name null = ok (some name.end)
end_of name (node l n) = ok l.end

unfoldable pub variable_decl : Callees → Parser Ast
variable_decl call = do
  keyword ← peek_either TokenType.var TokenType.let_
  branch keyword
      (do
        var_type ← accept
        named ← peek_is TokenType.identifier
        branch named
            (do
              name ← accept
              initialized ← peek_is TokenType.equal
              right ← branch initialized (do _ ← accept; expression call) (pure null)
              text ← value_of name
              end ← lift (end_of name right)
              pure (
                  locate (record { start = some var_type.start; end = end })
                    (make_declare_expr var_type text right)))
            (do bad ← accept; _ ← value_of bad; fail exits))
      (pure null)

-- What comes before `fn`: whether it is exported, or `none` where the slash is put back.
unfoldable pub export_prefix : Parser (Option Bool)
export_prefix = do
  slash ← peek_is TokenType.slash
  branch slash
      (do
        _ ← accept
        exported ← peek_is TokenType.exported
        branch exported
            (do
              _ ← accept
              close ← accept
              check (has_type TokenType.slash close)
              eol ← peek_is TokenType.eol
              branch eol (skip >> pure (some true)) (pure (some true)))
            (do put_back; pure none))
      (pure (some false))

abbrev pub function_named : Callees → Option Bool → Parser Ast
function_named call none = pure null
function_named call (some exported) = do
  keyword ← peek_is TokenType.fn
  branch keyword
      (do
        _ ← accept
        named ← peek_is TokenType.identifier
        branch named (do t ← accept; name ← value_of t; function_rest call name exported)
            (do put_back; pure null))
      (pure null)

unfoldable pub function_decl : Callees → Parser Ast
function_decl call = do exported ← export_prefix; function_named call exported

unfoldable pub import_statement : Parser Ast
import_statement = do
  keyword ← peek_is TokenType.import
  branch keyword
      (do
        _ ← accept
        path ← peek_is TokenType.string
        branch path
            (do module_name ← accept; text ← value_of module_name; pure (make_module_expr text))
            (do _ ← accept; fail exits))
      (pure null)

unfoldable pub if_statement : Callees → Parser Ast
if_statement call = do
  keyword ← peek_is TokenType.if_
  branch keyword
      (do
        _ ← accept
        condition ← expression call
        branch (is_null condition) (do _ ← accept; fail exits)
            (do
              block ← statement_block call
              body ← otherwise block call.call_statement
              branch (is_null body) (do _ ← accept; _ ← lift (location_of condition); fail exits)
                  (pure (make_if_expr condition body))))
      (pure null)

-- The variable of a loop, if it has one, and what it runs over.
unfoldable pub for_variable : Callees → Parser (Option (List ℕ) × Ast)
for_variable call = do
  named ← peek_is TokenType.identifier
  branch named
      (do
        t ← accept
        in_ ← peek_is TokenType.in_
        branch in_
            (do var ← value_of t; _ ← accept; iterable ← primary call; pure (some var, iterable))
            (do put_back; iterable ← primary call; pure (none, iterable)))
      (pure (none, null))

abbrev pub iterables : List TokenType
iterables = TokenType.string ∷ TokenType.l_paren ∷ TokenType.number ∷ []

unfoldable pub for_statement : Callees → Parser Ast
for_statement call = do
  keyword ← peek_is TokenType.for
  branch keyword
      (do
        _ ← accept
        first ← for_variable call
        iterable ←
            otherwise (first.1)
              do found ← match_any iterables; branch found (primary call) (pure null)
        branch (is_null iterable) (do _ ← accept; fail exits)
            (do
              body ← statement_block call
              branch (is_null body) (do _ ← accept; _ ← lift (location_of iterable); fail exits)
                  (pure (make_for_expr (first.0) iterable body))))
      (pure null)

-- The kinds of statement, one after the other, until one is found.
unfoldable pub any_statement : Callees → Ast → Parser Ast
any_statement call declared = do
  expr ← otherwise declared (expression call)
  named ← otherwise expr (function_decl call)
  unnamed ← otherwise named (anonymous_decl call)
  conditional ← otherwise unnamed (if_statement call)
  loop ← otherwise conditional (for_statement call)
  otherwise loop import_statement

unfoldable pub statement : Callees → Parser Ast
statement call = do
  declared ← variable_decl call
  returns ← peek_is TokenType.return
  branch returns
      (do keyword ← accept; operand ← call.call_statement; pure (make_unary_expr keyword operand))
      (do
        left ← any_statement call declared
        eol ← peek_is TokenType.eol
        branch eol (do _ ← accept; branch (is_null left) call.call_statement (pure left))
            (do _ ← peek_is TokenType.eof; pure left))

-- The functions that are called again, with a unit less of fuel than their caller.
unfoldable pub callees : ℕ → Callees
callees zero = record {
  fuel = zero;
  call_expression = fail out_of_fuel;
  call_unary = fail out_of_fuel;
  call_member_access = fail out_of_fuel;
  call_statement = fail out_of_fuel;
}
callees (suc fuel) = record {
  fuel = suc fuel;
  call_expression = expression (callees fuel);
  call_unary = parse_unary (callees fuel);
  call_member_access = member_access (callees fuel);
  call_statement = statement (callees fuel);
}

-- Each nested call reads a token, so one unit of fuel more than there are bytes is enough.
unfoldable pub parse : ScanContext → Result (Ast × ScanContext)
parse context = statement_list (callees (suc (length context.buffer))) context
