-- ===== src/Parser/Bodies.antt =====
-- src/compiler/parse.c: the trees of statement lists, blocks and declarations.
use nord.Prelude.{ℕ, zero, suc, ◌≡◌, Bool, false, List, ◌⊎◌, inl, inr, arith}
use nord.Prelude.Holds.{Holds}
use nord.Lexer.{ScanContext}
use nord.Syntax.{Ast, null, node, stmt_list, is_null, size, list_expr_append, make_list_expr}
use nord.Prelude.State.{branch}
use nord.Parser.{Parser, Callees, otherwise}
use nord.Parser.Statements.{
  statements_from, statement_list, statement_block, function_rest, anonymous_decl, expression,
  variable_decl,
}
use nord.Parser.Tree.{
  Formed, OrNull, Arguments, Body, Block, nothing, found, none_given, block, single, braces, empty,
  declaration, function, present, snoc-All, append-Holds,
}
use nord.Parser.Gives.{
  Gives, reads, stops, continue-Gives, next-Gives, branch-Gives, lift-Gives, check-Gives,
  otherwise-Gives, Reads, not-true, weaken-Gives,
}
use nord.Parser.Primary.{Sound, expression_list-Gives}
use nord.Parser.Precedence.{assignment-Reads}

list_expr_append-Block :
    {left t : Ast} → Block left → Formed 0 t → Holds Block (list_expr_append left t)
unfolding list_expr_append
list_expr_append-Block {t = t} (block {l} {capacity} {items} room all) f =
    append-Holds capacity items t (λ r. node l (stmt_list (r.0) (r.1)))
      λ k h. block h (snoc-All items all f)

no_statements : Block (make_list_expr 10)
unfolding size
no_statements = block (omega arith) empty

-- A block or null.
pub data BlockOrNull : Ast → Type 0 where
  no_block : BlockOrNull null
  some_block : {t : Ast} → Block t → BlockOrNull t

pub to_Block : {t : Ast} → BlockOrNull t → is_null t ≡ false → Block t
to_Block no_block e = cc
to_Block (some_block b) e = b

-- The body of a conditional: what follows the block that is missing.
pub body_of :
    {t : Ast} (p : Parser Ast) (c : ScanContext)
    → BlockOrNull t
    → Gives (OrNull 0) (p c)
    → Gives (λ u. OrNull 0 u ⊎ BlockOrNull u) (otherwise t p c)
unfolding branch
body_of p c no_block h = weaken-Gives h λ u. inl
body_of {t = node l n} p c (some_block b) h = reads (inr (some_block b))
body_of {t = null} p c (some_block b) h = weaken-Gives h λ u. inl

pub to_Body : {t : Ast} → OrNull 0 t ⊎ BlockOrNull t → is_null t ≡ false → Body t
to_Body (inl f) e = single (present f e)
to_Body (inr b) e = braces (to_Block b e)

module _ (call : Callees) (sound : Sound call) where
  statements_from-Gives :
      (fuel : ℕ) (left : Ast)
      → Block left
      → (c : ScanContext) → Gives Block (statements_from call fuel left c)
  unfolding statements_from
  statements_from-Gives zero left b c = stops
  statements_from-Gives (suc fuel) left b c = next-Gives _ _ λ ends c₁.
      branch-Gives ends _ _ c₁ (λ _. reads b)
        λ _. next-Gives _ _ λ eol c₂. next-Gives _ _ λ u c₃.
          continue-Gives _ _ (sound.statement c₃) λ current c₄ f.
            branch-Gives (is_null current) _ _ c₄ (λ _. reads b)
              λ e.
                continue-Gives _ _ (lift-Gives _ c₄ (list_expr_append-Block b (present f e)))
                  λ left' c₅ b'. statements_from-Gives fuel left' b' c₅

  pub statement_list-Gives : (c : ScanContext) → Gives Block (statement_list call c)
  unfolding statement_list
  statement_list-Gives c = continue-Gives _ _ (sound.statement c) λ current c₁ f.
      branch-Gives (is_null current) _ _ c₁ (λ _. reads no_statements)
        λ e.
          continue-Gives _ _ (lift-Gives _ c₁ (list_expr_append-Block no_statements (present f e)))
            λ left c₂ b. statements_from-Gives (suc call.fuel) left b c₂

  pub statement_block-Gives : (c : ScanContext) → Gives BlockOrNull (statement_block call c)
  unfolding statement_block
  statement_block-Gives c = next-Gives _ _ λ eol c₁. next-Gives _ _ λ u c₂.
      next-Gives _ _ λ opens c₃.
        branch-Gives opens _ _ c₃
          (λ _. next-Gives _ _ λ t c₄. next-Gives _ _ λ v c₅.
            continue-Gives _ _ (statement_list-Gives c₅) λ left c₆ b. next-Gives _ _ λ w c₇.
              next-Gives _ _
                λ close c₈. branch-Gives _ _ _ c₈ (λ _. reads (some_block b)) (λ _. stops))
          (λ _. next-Gives _ _ λ t c₄. reads no_block)

  pub function_rest-Reads :
      (name : List ℕ) (exported : Bool) → Reads 1 (function_rest call name exported)
  function_rest-Reads name exported c = next-Gives _ _ λ opens c₁.
      continue-Gives _ _
        (branch-Gives {P = Arguments} opens _ _ c₁
          (λ _. next-Gives _ _ λ t c₂.
            continue-Gives _ _ (expression_list-Gives call sound c₂)
              λ args c₃ a. next-Gives _ _ λ close c₄. next-Gives _ _ λ u c₅. reads a)
          (λ _. reads none_given))
        λ args c₂ a. continue-Gives _ _ (statement_block-Gives c₂) λ body c₃ b.
          check-Gives _ _ c₃
            λ e c₄. reads (found (function (omega arith) a (to_Block b (not-true e))))

  pub anonymous_decl-Reads : Reads 1 (anonymous_decl call)
  unfolding anonymous_decl
  anonymous_decl-Reads c = next-Gives _ _ λ keyword c₁.
      branch-Gives keyword _ _ c₁
        (λ _. next-Gives _ _ λ t c₂. next-Gives _ _ λ unnamed c₃.
          branch-Gives unnamed _ _ c₃ (λ _. function_rest-Reads _ _ c₃)
            λ _. next-Gives _ _ λ u c₄. reads nothing)
        (λ _. reads nothing)

  pub expression-Reads : Reads 1 (expression call)
  unfolding expression
  expression-Reads c =
      continue-Gives _ _ (assignment-Reads call sound c)
        λ value c₁ f. otherwise-Gives _ c₁ f (anonymous_decl-Reads c₁)

  pub variable_decl-Reads : Reads 0 (variable_decl call)
  unfolding variable_decl
  variable_decl-Reads c = next-Gives _ _ λ keyword c₁.
      branch-Gives keyword _ _ c₁
        (λ _. next-Gives _ _ λ var_type c₂. next-Gives _ _ λ named c₃.
          branch-Gives named _ _ c₃
            (λ _. next-Gives _ _ λ name c₄. next-Gives _ _ λ initialized c₅.
              continue-Gives _ _
                (branch-Gives {P = OrNull 1} initialized _ _ c₅
                  (λ _. next-Gives _ _ λ t c₆. expression-Reads c₆) (λ _. reads nothing))
                λ right c₆ f.
                  next-Gives _ _
                    λ text c₇. next-Gives _ _ λ end c₈. reads (found (declaration (omega arith) f)))
            (λ _. next-Gives _ _ λ bad c₄. next-Gives _ _ λ v c₅. stops))
        (λ _. reads nothing)
