-- ===== src/Parser/Progress.antt =====
-- src/compiler/parse.c: how the functions of the expressions end.
use nord.Prelude.{ℕ, zero, suc, ◌+◌, ◌≤◌, ◌<◌, List, arith}
use nord.Token.{TokenType}
use nord.Lexer.{ScanContext}
use nord.Syntax.{Ast, null}
use nord.Prelude.State.{continue}
use nord.Parser.{Parser, Callees}
use nord.Parser.Expressions.{
  parse_unary, operators_from, factors_from, term_md, term, comparison, equality, conjunction,
  assignment,
}
use nord.Parser.Position.{
  Ends, goes, stops, At, At-later, continue-Ends, branch-Ends, null-Ends, peek-Ends, accept-Ends,
  put_back-At,
}
use nord.Parser.Steps.{
  Kept, looked, missing, reached, join-Ends, lift-Ends, value_of-Ends, peek_is-Ends, match_any-Ends,
  location_of_ends,
}
use nord.Parser.Operands.{Ready, Steps, no_room, primary-Steps}

module _ (n : ℕ) (call : Callees) (ready : Ready n call) where
  pub parse_unary-Steps : Steps n call.fuel (parse_unary call)
  unfolding parse_unary
  parse_unary-Steps p q c a h = continue-Ends _ _ (match_any-Ends c a _) λ prefix c₁ a₁.
      branch-Ends prefix _ _ c₁
        (continue-Ends _ _ (accept-Ends c₁ a₁) λ operator c₂ a₂.
          continue-Ends _ _ (ready.unary _ _ c₂ a₂ (omega arith)) λ operand c₃ b.
            continue-Ends _ _ (lift-Ends c₃ b.at _ (location_of_ends operand))
              λ l c₄ a₄. goes (reached b.later b.behind a.ordered a₄))
        (continue-Ends _ _ (primary-Steps n call ready p q c₁ a₁ h) λ t c₂ b.
          null-Ends t _ _ c₂
            (continue-Ends _ _ (peek_is-Ends c₂ b.at _) λ bad c₃ a₃.
              branch-Ends bad _ _ c₃
                (continue-Ends _ _ (peek-Ends c₃ a₃)
                  λ u c₄ a₄. continue-Ends _ _ (value_of-Ends c₄ a₄ u) λ v c₅ a₅. stops (cc))
                (goes (missing (At-later b.later b.behind a.ordered a₃))))
            (λ e. goes b))

  operators_from-Ends :
      (types : List TokenType) (operand : Parser Ast)
      → Steps n call.fuel operand
      → (fuel p q : ℕ) (left : Ast) (c : ScanContext) → q ≤ p
      → n ≤ p + call.fuel
      → (b : Kept n p q left c) → n < b.place + fuel
      → Ends (Kept n p q) (operators_from types operand fuel left c)
  unfolding operators_from
  operators_from-Ends types operand k zero p q left c o f b h = no_room c b.at h
  operators_from-Ends types operand k (suc fuel) p q left c o f b h =
      continue-Ends _ _ (match_any-Ends c b.at types) λ found c₁ a₁.
        branch-Ends found _ _ c₁
          (continue-Ends _ _ (accept-Ends c₁ a₁) λ operator c₂ a₂.
            continue-Ends _ _ (k _ _ c₂ a₂ (omega (arith, b.later))) λ right c₃ d.
              continue-Ends _ _ (join-Ends left operator right d.at) λ joined c₄ a₄.
                operators_from-Ends types operand k fuel p q joined c₄ o f
                  (reached (omega (arith, b.later, d.later)) (omega (arith, b.later, d.behind)) o
                    a₄)
                  (omega (arith, d.later)))
          (goes (looked b a₁))

  level-Steps :
      (types : List TokenType) (operand : Parser Ast)
      → Steps n call.fuel operand
      → Steps n call.fuel
          (λ c. continue (operand c) λ left. operators_from types operand (suc call.fuel) left)
  level-Steps types operand k p q c a h = continue-Ends _ _ (k p q c a h) λ left c₁ b.
      operators_from-Ends types operand k (suc call.fuel) p q left c₁ a.ordered h b
        (omega (arith, b.later))

  factors_from-Ends :
      (fuel p q : ℕ) (left : Ast) (c : ScanContext)
      → q ≤ p
      → n ≤ p + call.fuel
      → (b : Kept n p q left c) → n < b.place + fuel
      → Ends (Kept n p q) (factors_from call fuel left c)
  unfolding factors_from continue
  factors_from-Ends zero p q left c o f b h = no_room c b.at h
  factors_from-Ends (suc fuel) p q left c o f b h =
      continue-Ends _ _ (match_any-Ends c b.at _) λ found c₁ a₁.
        branch-Ends found _ _ c₁
          (continue-Ends _ _ (accept-Ends c₁ a₁) λ operator c₂ a₂.
            continue-Ends _ _
              (branch-Ends {P = λ x. At n (b.place + 1) b.place} _ _ _ c₂ (peek_is-Ends c₂ a₂ _)
                (goes a₂))
              λ export c₃ a₃. branch-Ends export _ _ c₃ (goes (dropped (put_back-At c₃ a₃))) (
                continue-Ends _ _ (parse_unary-Steps _ _ c₃ a₃ (omega (arith, b.later)))
                  λ right c₄ d.
                    continue-Ends _ _ (join-Ends left operator right d.at) λ joined c₅ a₅.
                      factors_from-Ends fuel p q joined c₅ o f
                        (reached (omega (arith, b.later, d.later))
                          (omega (arith, b.later, d.behind)) o a₅)
                        (omega (arith, d.later))))
          (goes (looked b a₁))
    where
      dropped : {c' : ScanContext} → At n b.place b.place c' → Kept n p q null c'
      dropped a = missing (At-later b.later (omega (arith, b.later)) o a)

  term_md-Steps : Steps n call.fuel (term_md call)
  unfolding term_md
  term_md-Steps p q c a h = continue-Ends _ _ (parse_unary-Steps p q c a h) λ left c₁ b.
      factors_from-Ends (suc call.fuel) p q left c₁ a.ordered h b (omega (arith, b.later))

  term-Steps : Steps n call.fuel (term call)
  unfolding term
  term-Steps = level-Steps _ (term_md call) term_md-Steps

  comparison-Steps : Steps n call.fuel (comparison call)
  unfolding comparison
  comparison-Steps = level-Steps _ (term call) term-Steps

  equality-Steps : Steps n call.fuel (equality call)
  unfolding equality
  equality-Steps = level-Steps _ (comparison call) comparison-Steps

  conjunction-Steps : Steps n call.fuel (conjunction call)
  unfolding conjunction
  conjunction-Steps = level-Steps _ (equality call) equality-Steps

  pub assignment-Steps : Steps n call.fuel (assignment call)
  unfolding assignment continue
  assignment-Steps p q c a h = continue-Ends _ _ (peek_is-Ends c a _) λ named c₁ a₁.
      branch-Ends named _ _ c₁
        (continue-Ends _ _ (accept-Ends c₁ a₁) λ name c₂ a₂.
          continue-Ends _ _ (peek_is-Ends c₂ a₂ _) λ equal c₃ a₃.
            branch-Ends equal _ _ c₃
              (continue-Ends _ _ (accept-Ends c₃ a₃) λ t c₄ a₄.
                continue-Ends _ _ (ready.expression _ _ c₄ a₄ (omega arith)) λ value c₅ b.
                  continue-Ends _ _ (value_of-Ends c₅ b.at name) λ text c₆ a₆.
                    goes (reached (omega (arith, b.later)) (omega (arith, b.behind)) a.ordered a₆))
              (conjunction-Steps p q _
                (At-later (omega arith) a.ordered a.ordered (put_back-At c₃ a₃)) h))
        (conjunction-Steps p q c₁ a₁ h)
