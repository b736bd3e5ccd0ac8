-- ===== src/Parser.antt =====
-- src/compiler/parse.c: the recursive descent over the scanning context. A function of the parser
-- takes the context and returns a tree, null where it found none. The functions that are called
-- again further down are in a record, which `Parser.Statements` closes on fuel.
pub mod Expressions
pub mod Statements
pub mod Tree
pub mod Gives
pub mod Primary
pub mod Bodies
pub mod Shape
pub mod Position
pub mod Steps
pub mod Operands
pub mod Progress
pub mod Blocks
pub mod Termination
pub mod Precedence
use nord.Prelude.{ℕ, ◌+◌, Bool, true, false, ◌||◌, Option, none, some, List, if◌then◌else◌}
use nord.Prelude.State.{State, pure, lift, ◌>>=◌, ◌>>◌, branch}
use nord.Prelude.Result.{Result, ok, fault, Fault, assertion}
use nord.Token.{Token, TokenType, has_type}
use nord.Lexer.{ScanContext, peek, accept, backup, match, token_value}
use nord.Syntax.{
  Ast, is_null, location_of, locate, make_binary_expr, make_literal_expr, literal, node,
}

abbrev pub Parser {ℓ} : Type ℓ → Type ℓ
Parser A = State ScanContext A

-- `peek(context).type == type`
abbrev pub peek_is : TokenType → Parser Bool
peek_is type = peek >>= λ t. pure (has_type type t)

-- `peek(context).type == a || peek(context).type == b`
abbrev pub peek_either : TokenType → TokenType → Parser Bool
peek_either a b = peek_is a >>= λ first. branch first (pure true) (peek_is b)

abbrev pub match_any : List TokenType → Parser Bool
match_any types context = match context types

abbrev pub value_of : Token → Parser (List ℕ)
value_of t context = lift (token_value context t) context

-- `backup`
abbrev pub put_back : Parser (Unit {0})
put_back context = ok (tt, backup context)

-- a call of `accept` whose token is not used
abbrev pub skip : Parser (Unit {0})
skip = accept >>= λ _. pure tt

-- `context->position`
abbrev pub position_of : Parser ℕ
position_of context = ok (context.position, context)

-- `if (left == NULL) left = p(context);`
abbrev pub otherwise : Ast → Parser Ast → Parser Ast
otherwise left p = branch (is_null left) p (pure left)

-- A literal with its text, at its place.
abbrev pub literal_at : Token → List ℕ → Ast
literal_at t v = node (record { start = some t.start; end = some t.end }) (literal t (some v))

-- A binary node from the start of its left side to the end of its right side.
abbrev pub join : Ast → Token → Ast → Parser Ast
join left operator right = do
  l ← lift (location_of left)
  r ← lift (location_of right)
  pure (locate (record { start = l.start; end = r.end }) (make_binary_expr left operator right))

-- What a function may call further down, and the fuel of its loops.
pub record Callees : Type 0 where
  pub fuel : ℕ
  pub call_expression : Parser Ast
  pub call_unary : Parser Ast
  pub call_member_access : Parser Ast
  pub call_statement : Parser Ast
