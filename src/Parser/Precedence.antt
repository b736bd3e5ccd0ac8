-- ===== src/Parser/Precedence.antt =====
-- src/compiler/parse.c: the levels of the operators, from a sign to an assignment.
use nord.Prelude.{ℕ, zero, suc, ◌+◌, ◌≡◌, refl, true, List, arith}
use nord.Token.{Token, TokenType}
use nord.Lexer.{ScanContext, any_type}
use nord.Syntax.{Ast, is_null}
use nord.Prelude.State.{continue}
use nord.Parser.{Parser, Callees, join}
use nord.Parser.Expressions.{
  parse_unary, operators_from, factors_from, term_md, term, comparison, equality, conjunction,
  assignment,
}
use nord.Parser.Tree.{
  OrNull, operators_at, signs, comparisons, nothing, found, operation, signed, assigned, lower_or,
}
use nord.Parser.Gives.{
  Gives, reads, stops, weaken-Gives, located-Gives, continue-Gives, next-Gives, branch-Gives,
  matched-Gives, Reads,
}
use nord.Parser.Primary.{Sound, primary-Reads}

-- A node of a binary operator, where both sides are trees.
join-Gives :
    {m : ℕ} {left right : Ast} (operator : Token)
    → any_type (operators_at m) operator ≡ true
    → OrNull m left
    → OrNull (m + 1) right
    → (c : ScanContext) → Gives (OrNull m) (join left operator right c)
join-Gives operator e f g c = located-Gives _ c f λ left l c₁.
    located-Gives _ c₁ g λ right r c₂. reads (found (operation (omega arith) e left right))

-- The loop of a level: the left side grows, and each right side is of the next level.
operators_from-Reads :
    (m : ℕ) (types : List TokenType) (operand : Parser Ast)
    → types ≡ operators_at m
    → Reads (m + 1) operand
    → (fuel : ℕ) (left : Ast) → OrNull m left
    → Reads m (operators_from types operand fuel left)
unfolding operators_from
operators_from-Reads m types operand e h zero left f c = stops
operators_from-Reads m types operand e h (suc fuel) left f c =
    matched-Gives _ _ types c
      (λ operator among c₁. continue-Gives _ _ (h c₁) λ right c₂ g.
        continue-Gives _ _ (join-Gives operator (rw e at among) f g c₂)
          λ joined c₃ k. operators_from-Reads m types operand e h fuel joined k c₃)
      (λ c₁. reads f)

-- A level over the next one.
level-Reads :
    (m : ℕ) (types : List TokenType) (operand : Parser Ast) (fuel : ℕ)
    → types ≡ operators_at m
    → Reads (m + 1) operand
    → (c : ScanContext)
    → Gives (OrNull m) (continue (operand c) λ left. operators_from types operand fuel left)
level-Reads m types operand fuel e h c =
    continue-Gives _ _ (h c)
      λ left c₁ f. operators_from-Reads m types operand e h fuel left (lower_or (omega arith) f) c₁

module _ (call : Callees) (sound : Sound call) where
  pub parse_unary-Reads : Reads 7 (parse_unary call)
  unfolding parse_unary
  parse_unary-Reads c =
      matched-Gives _ _ signs c
        (λ operator e c₁.
          continue-Gives _ _ (sound.unary c₁)
            λ operand c₂ f. located-Gives _ c₂ f λ g l c₃. reads (found (signed (omega arith) e g)))
        (λ c₁. continue-Gives _ _ (primary-Reads call sound c₁) λ p c₂ f.
          branch-Gives (is_null p) _ _ c₂
            (λ _. next-Gives _ _ λ bad c₃.
              branch-Gives bad _ _ c₃ (λ _. next-Gives _ _ λ t c₄. next-Gives _ _ λ v c₅. stops)
                (λ _. reads nothing))
            (λ _. reads (lower_or (omega arith) f)))

  factors_from-Reads :
      (fuel : ℕ) (left : Ast) → OrNull 6 left → Reads 6 (factors_from call fuel left)
  unfolding factors_from operators_at
  factors_from-Reads zero left f c = stops
  factors_from-Reads (suc fuel) left f c =
      matched-Gives _ _ (operators_at 6) c
        (λ operator among c₁. next-Gives _ _ λ export c₂.
          branch-Gives export _ _ c₂ (λ _. next-Gives _ _ λ t c₃. reads nothing)
            (λ _. continue-Gives _ _ (parse_unary-Reads c₂) λ right c₃ g.
              continue-Gives _ _ (join-Gives operator among f g c₃)
                λ joined c₄ k. factors_from-Reads fuel joined k c₄))
        (λ c₁. reads f)

  term_md-Reads : Reads 6 (term_md call)
  unfolding term_md
  term_md-Reads c =
      continue-Gives _ _ (parse_unary-Reads c)
        λ left c₁ f. factors_from-Reads (suc call.fuel) left (lower_or (omega arith) f) c₁

  term-Reads : Reads 5 (term call)
  unfolding term operators_at
  term-Reads = level-Reads 5 _ (term_md call) (suc call.fuel) refl term_md-Reads

  comparison-Reads : Reads 4 (comparison call)
  unfolding comparison operators_at
  comparison-Reads = level-Reads 4 comparisons (term call) (suc call.fuel) refl term-Reads

  equality-Reads : Reads 3 (equality call)
  unfolding equality operators_at
  equality-Reads = level-Reads 3 _ (comparison call) (suc call.fuel) refl comparison-Reads

  conjunction-Reads : Reads 2 (conjunction call)
  unfolding conjunction operators_at
  conjunction-Reads = level-Reads 2 _ (equality call) (suc call.fuel) refl equality-Reads

  pub assignment-Reads : Reads 1 (assignment call)
  unfolding assignment
  assignment-Reads c = next-Gives _ _ λ named c₁.
      branch-Gives named _ _ c₁
        (λ _. next-Gives _ _ λ name c₂. next-Gives _ _ λ equal c₃.
          branch-Gives equal _ _ c₃
            (λ _. next-Gives _ _ λ t c₄.
              continue-Gives _ _ (sound.expression c₄)
                λ value c₅ f. next-Gives _ _ λ text c₆. reads (found (assigned (omega arith) f)))
            (λ _. next-Gives _ _ λ t c₄. as_expression c₄))
        (λ _. as_expression c₁)
    where
      as_expression : Reads 1 (conjunction call)
      as_expression c = weaken-Gives (conjunction-Reads c) λ t. lower_or (omega arith)
