-- ===== src/Parser/Shape.antt =====
-- src/compiler/parse.c: the trees of the statements, and of the whole parser.
use nord.Prelude.{ℕ, zero, suc, ◌≡◌, Bool, Option, none, some, arith}
use nord.Prelude.Result.{ok}
use nord.Token.{TokenType}
use nord.Lexer.{ScanContext}
use nord.Syntax.{Ast, null, is_null}
use nord.Prelude.State.{continue, branch, ◌>>=◌, pure}
use nord.Parser.{Parser, Callees, otherwise, match_any}
use nord.Parser.Expressions.{primary}
use nord.Parser.Statements.{
  function_named, function_decl, import_statement, if_statement, iterables, for_variable,
  for_statement, any_statement, statement, callees, parse,
}
use nord.Parser.Tree.{
  OrNull, Block, nothing, found, returned, imported, conditional, loop, lower_or, present,
}
use nord.Parser.Gives.{
  Gives, reads, stops, continue-Gives, next-Gives, branch-Gives, peeked-Gives, otherwise-Gives,
  Reads, weaken-Gives, Gives-ok,
}
use nord.Parser.Primary.{Sound, primary-Reads, member_access-Reads}
use nord.Parser.Precedence.{parse_unary-Reads}
use nord.Parser.Bodies.{
  to_Block, body_of, to_Body, statement_list-Gives, statement_block-Gives, function_rest-Reads,
  anonymous_decl-Reads, expression-Reads, variable_decl-Reads,
}

module _ (call : Callees) (sound : Sound call) where
  function_decl-Reads : Reads 1 (function_decl call)
  unfolding function_decl
  function_decl-Reads c = next-Gives _ _ λ exported c₁. named exported c₁
    where
      named : (exported : Option Bool) → Reads 1 (function_named call exported)
      named none c = reads nothing
      named (some exported) c = next-Gives _ _ λ keyword c₁.
          branch-Gives keyword _ _ c₁
            (λ _. next-Gives _ _ λ t c₂. next-Gives _ _ λ named_ c₃.
              branch-Gives named_ _ _ c₃
                (λ _. next-Gives _ _ λ u c₄.
                  next-Gives _ _ λ name c₅. (function_rest-Reads call sound) name exported c₅)
                (λ _. next-Gives _ _ λ u c₄. reads nothing))
            (λ _. reads nothing)

  import_statement-Reads : Reads 0 import_statement
  unfolding import_statement
  import_statement-Reads c = next-Gives _ _ λ keyword c₁.
      branch-Gives keyword _ _ c₁
        (λ _. next-Gives _ _ λ t c₂. next-Gives _ _ λ path c₃.
          branch-Gives path _ _ c₃
            (λ _.
              next-Gives _ _
                λ name c₄. next-Gives _ _ λ text c₅. reads (found (imported (omega arith))))
            (λ _. next-Gives _ _ λ u c₄. stops))
        (λ _. reads nothing)

  if_statement-Reads : Reads 0 (if_statement call)
  unfolding if_statement
  if_statement-Reads c = next-Gives _ _ λ keyword c₁.
      branch-Gives keyword _ _ c₁
        (λ _. next-Gives _ _ λ t c₂.
          continue-Gives _ _ (expression-Reads call sound c₂) λ condition c₃ f.
            branch-Gives (is_null condition) _ _ c₃ (λ _. next-Gives _ _ λ u c₄. stops)
              λ e. continue-Gives _ _ (statement_block-Gives call sound c₃) λ block_ c₄ b.
                continue-Gives _ _ (body_of _ c₄ b (sound.statement c₄)) λ body c₅ g.
                  branch-Gives (is_null body) _ _ c₅
                    (λ _. next-Gives _ _ λ u c₆. next-Gives _ _ λ l c₇. stops)
                    λ e'. reads (found (conditional (omega arith) (present f e) (to_Body g e'))))
        (λ _. reads nothing)

  for_variable-Gives : (c : ScanContext) → Gives (λ r. OrNull 8 (r.1)) (for_variable call c)
  unfolding for_variable
  for_variable-Gives c = next-Gives _ _ λ named c₁.
      branch-Gives named _ _ c₁
        (λ _. next-Gives _ _ λ t c₂. next-Gives _ _ λ within c₃.
          branch-Gives within _ _ c₃
            (λ _. next-Gives _ _ λ var c₄.
              next-Gives _ _
                λ u c₅. continue-Gives _ _ (primary-Reads call sound c₅) λ iterable c₆ f. reads f)
            (λ _.
              next-Gives _ _
                λ u c₄. continue-Gives _ _ (primary-Reads call sound c₄) λ iterable c₅ f. reads f))
        (λ _. reads nothing)

  for_statement-Reads : Reads 0 (for_statement call)
  unfolding for_statement
  for_statement-Reads c = next-Gives _ _ λ keyword c₁.
      branch-Gives keyword _ _ c₁
        (λ _. next-Gives _ _ λ t c₂. continue-Gives _ _ (for_variable-Gives c₂) λ first c₃ f.
          continue-Gives _ _ (otherwise-Gives _ c₃ f (over c₃)) λ iterable c₄ g.
            branch-Gives (is_null iterable) _ _ c₄ (λ _. next-Gives _ _ λ u c₅. stops)
              λ e. continue-Gives _ _ (statement_block-Gives call sound c₄) λ body c₅ b.
                branch-Gives (is_null body) _ _ c₅
                  (λ _. next-Gives _ _ λ u c₆. next-Gives _ _ λ l c₇. stops)
                  λ e'. reads (found (loop (omega arith) (present g e) (to_Block b e'))))
        (λ _. reads nothing)
    where
      over : Reads 8 (match_any iterables >>= λ found. branch found (primary call) (pure null))
      over c = next-Gives _ _ λ found_ c₁.
          branch-Gives found_ _ _ c₁ (λ _. primary-Reads call sound c₁) (λ _. reads nothing)

  any_statement-Reads : (t : Ast) → OrNull 0 t → Reads 0 (any_statement call t)
  unfolding any_statement
  any_statement-Reads t f c = try_next t f c (lowered (expression-Reads call sound)) λ t₁ f₁ c₁.
      try_next t₁ f₁ c₁ (lowered function_decl-Reads) λ t₂ f₂ c₂.
        try_next t₂ f₂ c₂ (lowered (anonymous_decl-Reads call sound)) λ t₃ f₃ c₃.
          try_next t₃ f₃ c₃ if_statement-Reads λ t₄ f₄ c₄.
            try_next t₄ f₄ c₄ for_statement-Reads
              λ t₅ f₅ c₅. otherwise-Gives _ c₅ f₅ (import_statement-Reads c₅)
    where
      lowered : {p : Parser Ast} → Reads 1 p → Reads 0 p
      lowered h c = weaken-Gives (h c) λ t. lower_or (omega arith)

      try_next :
          (t : Ast)
          → OrNull 0 t
          → (c : ScanContext) → {p : Parser Ast} → Reads 0 p
          → {next : Ast → Parser Ast}
          → ((t' : Ast) → OrNull 0 t' → (c' : ScanContext) → Gives (OrNull 0) (next t' c'))
          → Gives (OrNull 0) (continue (otherwise t p c) next)
      try_next t f c h k = continue-Gives _ _ (otherwise-Gives _ c f (h c)) λ t' c' g. k t' g c'

  statement-Reads : Reads 0 (statement call)
  unfolding statement
  statement-Reads c = continue-Gives _ _ (variable_decl-Reads call sound c) λ declared c₁ f.
      peeked-Gives _ _ TokenType.return c₁
        (λ keyword e c₂.
          continue-Gives _ _ (sound.statement c₂)
            λ operand c₃ g. reads (found (returned (omega arith) e g)))
        λ c₂. continue-Gives _ _ (any_statement-Reads declared f c₂) λ left c₃ g.
          next-Gives _ _ λ eol c₄.
            branch-Gives eol _ _ c₄
              (λ _.
                next-Gives _ _ λ t c₅.
                  branch-Gives (is_null left) _ _ c₅ (λ _. sound.statement c₅) (λ _. reads g))
              (λ _. next-Gives _ _ λ t c₅. reads g)

callees-Sound : (fuel : ℕ) → Sound (callees fuel)
unfolding callees
callees-Sound zero = record {
  expression = λ c. stops;
  unary = λ c. stops;
  member_access = λ c. stops;
  statement = λ c. stops;
}
callees-Sound (suc fuel) = record {
  expression = expression-Reads (callees fuel) (callees-Sound fuel);
  unary = parse_unary-Reads (callees fuel) (callees-Sound fuel);
  member_access = member_access-Reads (callees fuel) (callees-Sound fuel);
  statement = statement-Reads (callees fuel) (callees-Sound fuel);
}

-- The trees that the parser returns follow the grammar: they are statement lists, in which every
-- child that has to be there is there, and every binary operator has on its left a tree of its own
-- level and on its right one of a tighter level: the operators of a level associate to the left.
pub parse-Block :
    (context context' : ScanContext) (t : Ast) → parse context ≡ ok (t, context') → Block t
unfolding parse
parse-Block context context' t h = Gives-ok (statement_list-Gives _ (callees-Sound _) context) h
