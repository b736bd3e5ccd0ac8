-- ===== src/Parser/Operands.antt =====
-- src/compiler/parse.c: how the reading of an operand ends.
use nord.Prelude.{ℕ, zero, suc, ◌+◌, ◌≤◌, ◌<◌, ◌≢◌, arith}
use nord.Prelude.Result.{fault, out_of_fuel}
use nord.Lexer.{ScanContext}
use nord.Syntax.{Ast, Location, null, node, stmt_list, expr_list, nil, cons}
use nord.Prelude.State.{continue}
use nord.Parser.{Parser, Callees, otherwise}
use nord.Parser.Expressions.{
  as_expr_list, expressions_from, expression_list, function_call, member_access, range, enclosed,
  parse_tuple, literal_or, primary,
}
use nord.Parser.Position.{
  Ends, goes, stops, At, continue-Ends, branch-Ends, null-Ends, accept-Ends, put_back-At,
}
use nord.Parser.Steps.{
  Kept, looked, missing, reached, put_away, stays, otherwise-Ends, lift-Ends, check-Ends,
  value_of-Ends, peek_is-Ends, match_any-Ends, list_expr_append_ends,
}

-- `p` ends on a buffer of `n` bytes wherever there are fewer bytes left than `fuel`.
abbrev pub Within : ℕ → ℕ → Parser Ast → Type 0
Within n fuel f = (p q : ℕ) (c : ScanContext) → At n p q c → n < p + fuel → Ends (Kept n p q) (f c)

-- the same, where there may be as many bytes left
abbrev pub Steps : ℕ → ℕ → Parser Ast → Type 0
Steps n fuel f = (p q : ℕ) (c : ScanContext) → At n p q c → n ≤ p + fuel → Ends (Kept n p q) (f c)

pub record Ready (n : ℕ) (call : Callees) : Type 0 where
  pub expression : Within n call.fuel call.call_expression
  pub unary : Within n call.fuel call.call_unary
  pub member_access : Within n call.fuel call.call_member_access
  pub statement : Within n call.fuel call.call_statement

as_expr_list_ends : (t : Ast) → as_expr_list t ≢ fault out_of_fuel
as_expr_list_ends null = cc
as_expr_list_ends (node l (stmt_list k ts)) = cc
as_expr_list_ends (node l _) = cc

enclosed_ends : (l : Location) (t : Ast) → enclosed l t ≢ fault out_of_fuel
enclosed_ends l null = cc
enclosed_ends l (node k (expr_list m nil)) = cc
enclosed_ends l (node k (expr_list m (cons t nil))) = cc
enclosed_ends l (node k (expr_list m (cons t (cons u us)))) = cc
enclosed_ends l (node k _) = cc

-- No context is past the end of its buffer.
pub no_room : {A : Type 0} {n p q : ℕ} (c : ScanContext) → At n p q c → n < p + 0 → A
no_room c a h = absurd (omega (arith, a.inside, a.position))

module _ (n : ℕ) (call : Callees) (ready : Ready n call) where
  expressions_from-Ends :
      (fuel p q : ℕ) (left : Ast) (c : ScanContext)
      → q ≤ p
      → n < p + call.fuel
      → (b : Kept n p q left c) → n < b.place + fuel
      → Ends (Kept n p q) (expressions_from call fuel left c)
  unfolding expressions_from
  expressions_from-Ends zero p q left c o f b h = no_room c b.at h
  expressions_from-Ends (suc fuel) p q left c o f b h =
      continue-Ends _ _ (peek_is-Ends c b.at _) λ comma c₁ a₁.
        branch-Ends comma _ _ c₁
          (continue-Ends _ _ (accept-Ends c₁ a₁) λ t c₂ a₂.
            continue-Ends _ _ (ready.expression _ _ c₂ a₂ (omega (arith, b.later))) λ expr c₃ b₃.
              continue-Ends _ _ (check-Ends c₃ b₃.at _) λ u c₄ a₄.
                continue-Ends _ _ (lift-Ends c₄ a₄ _ (list_expr_append_ends left expr))
                  λ left' c₅ a₅.
                    expressions_from-Ends fuel p q left' c₅ o f
                      (reached (omega (arith, b.later, b₃.later))
                        (omega (arith, b.later, b₃.behind)) o a₅)
                      (omega (arith, b₃.later)))
          (goes (looked b a₁))

  pub expression_list-Within : Within n call.fuel (expression_list call)
  unfolding expression_list
  expression_list-Within p q c a h = continue-Ends _ _ (ready.expression p q c a h) λ expr c₁ b.
      null-Ends expr _ _ c₁ (goes (missing (stays a.ordered b))) λ e.
        let (m, k) = b.moves e in
        continue-Ends _ _ (lift-Ends c₁ b.at _ (list_expr_append_ends _ expr)) λ list c₂ a₂.
          continue-Ends _ _ (lift-Ends c₂ a₂ _ (as_expr_list_ends list)) λ left c₃ a₃.
            expressions_from-Ends (suc call.fuel) p q left c₃ a.ordered h (reached m k a.ordered a₃)
              (omega arith)

  function_call-Steps : Steps n call.fuel (function_call call)
  unfolding function_call continue
  function_call-Steps p q c a h = continue-Ends _ _ (peek_is-Ends c a _) λ named c₁ a₁.
      branch-Ends named _ _ c₁
        (continue-Ends _ _ (accept-Ends c₁ a₁) λ name c₂ a₂.
          continue-Ends _ _ (value_of-Ends c₂ a₂ name) λ fn_name c₃ a₃.
            continue-Ends _ _ (peek_is-Ends c₃ a₃ _) λ opens c₄ a₄.
              branch-Ends opens _ _ c₄
                (continue-Ends _ _ (accept-Ends c₄ a₄) λ t c₅ a₅.
                  continue-Ends _ _ (expression_list-Within _ _ c₅ a₅ (omega arith)) λ args c₆ b.
                    continue-Ends _ _ (accept-Ends c₆ b.at) λ close c₇ a₇.
                      continue-Ends _ _ (check-Ends c₇ a₇ _) λ u c₈ a₈.
                        goes
                          (reached (omega (arith, b.later)) (omega (arith, b.later)) a.ordered a₈))
                (goes (put_away a.ordered (put_back-At c₄ a₄))))
        (goes (missing a₁))

  pub member_access-Steps : Steps n call.fuel (member_access call)
  unfolding member_access continue
  member_access-Steps p q c a h = continue-Ends _ _ (peek_is-Ends c a _) λ named c₁ a₁.
      branch-Ends named _ _ c₁
        (continue-Ends _ _ (accept-Ends c₁ a₁) λ name c₂ a₂.
          continue-Ends _ _ (value_of-Ends c₂ a₂ name) λ text c₃ a₃.
            continue-Ends _ _ (peek_is-Ends c₃ a₃ _) λ dot c₄ a₄.
              branch-Ends dot _ _ c₄
                (continue-Ends _ _ (accept-Ends c₄ a₄) λ operator c₅ a₅.
                  continue-Ends _ _ (function_call-Steps _ _ c₅ a₅ (omega arith)) λ callee c₆ b.
                    continue-Ends _ _
                      (otherwise-Ends _ (omega arith) b
                        λ a₆. ready.member_access _ _ c₆ a₆ (omega arith))
                      λ right c₇ d.
                        goes (
                          reached (omega (arith, d.later)) (omega (arith, d.behind)) a.ordered
                            d.at))
                (goes (put_away a.ordered (put_back-At c₄ a₄))))
        (goes (missing a₁))

  range-Steps : Steps n call.fuel range
  unfolding range continue
  range-Steps p q c a h = continue-Ends _ _ (match_any-Ends c a _) λ start c₁ a₁.
      branch-Ends start _ _ c₁
        (continue-Ends _ _ (accept-Ends c₁ a₁) λ first c₂ a₂.
          continue-Ends _ _ (peek_is-Ends c₂ a₂ _) λ dots c₃ a₃.
            branch-Ends dots _ _ c₃
              (continue-Ends _ _ (value_of-Ends c₃ a₃ first) λ begin c₄ a₄.
                continue-Ends _ _ (accept-Ends c₄ a₄) λ t c₅ a₅.
                  continue-Ends _ _ (match_any-Ends c₅ a₅ _) λ more c₆ a₆.
                    continue-Ends _ _ (check-Ends c₆ a₆ more) λ u c₇ a₇.
                      continue-Ends _ _ (accept-Ends c₇ a₇) λ last c₈ a₈.
                        continue-Ends _ _ (value_of-Ends c₈ a₈ last)
                          λ end c₉ a₉. goes (reached (omega arith) (omega arith) a.ordered a₉))
              (goes (put_away a.ordered (put_back-At c₃ a₃))))
        (goes (missing a₁))

  parse_tuple-Steps : Steps n call.fuel (parse_tuple call)
  unfolding parse_tuple
  parse_tuple-Steps p q c a h = continue-Ends _ _ (peek_is-Ends c a _) λ opens c₁ a₁.
      branch-Ends opens _ _ c₁
        (continue-Ends _ _ (accept-Ends c₁ a₁) λ paren c₂ a₂.
          continue-Ends _ _ (expression_list-Within _ _ c₂ a₂ (omega arith)) λ list c₃ b.
            continue-Ends _ _ (check-Ends c₃ b.at _) λ u c₄ a₄.
              continue-Ends _ _ (accept-Ends c₄ a₄) λ close c₅ a₅.
                continue-Ends _ _ (lift-Ends c₅ a₅ _ (enclosed_ends _ list)) λ expr c₆ a₆.
                  branch-Ends _ _ _ c₆
                    (goes (reached (omega (arith, b.later)) (omega (arith, b.later)) a.ordered a₆))
                    (continue-Ends _ _ (value_of-Ends c₆ a₆ close) λ v c₇ a₇. stops (cc)))
        (goes (missing a₁))

  literal_or-Steps : (f : Parser Ast) → Steps n call.fuel f → Steps n call.fuel (literal_or f)
  literal_or-Steps f k p q c a h = continue-Ends _ _ (match_any-Ends c a _) λ found c₁ a₁.
      branch-Ends found _ _ c₁
        (continue-Ends _ _ (accept-Ends c₁ a₁) λ tok c₂ a₂.
          continue-Ends _ _ (value_of-Ends c₂ a₂ tok)
            λ value c₃ a₃. goes (reached (omega arith) (omega arith) a.ordered a₃))
        (k p q c₁ a₁ h)

  -- `p` and then `otherwise` `q`
  pub or_else-Ends :
      {p q : ℕ} (f : Parser Ast)
      → q ≤ p
      → n ≤ p + call.fuel
      → Steps n call.fuel f
      → {t : Ast} {c : ScanContext} → Kept n p q t c
      → Ends (Kept n p q) (otherwise t f c)
  or_else-Ends f o h k {c = c} b = otherwise-Ends f o b λ a. k _ _ c a h

  pub primary-Steps : Steps n call.fuel (primary call)
  unfolding primary
  primary-Steps p q c a h = continue-Ends _ _ (function_call-Steps p q c a h) λ callee c₁ b₁.
      continue-Ends _ _ (or_else-Ends _ a.ordered h member_access-Steps b₁) λ access c₂ b₂.
        continue-Ends _ _ (or_else-Ends _ a.ordered h range-Steps b₂)
          λ interval c₃ b₃. or_else-Ends _ a.ordered h (literal_or-Steps _ parse_tuple-Steps) b₃
