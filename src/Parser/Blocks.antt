-- ===== src/Parser/Blocks.antt =====
-- src/compiler/parse.c: how blocks, declarations and functions end.
use nord.Prelude.{ℕ, zero, suc, ◌+◌, ◌≤◌, ◌<◌, ◌≢◌, Bool, not, Option, none, some, List, arith}
use nord.Prelude.Result.{Result, fault, out_of_fuel}
use nord.Token.{Token}
use nord.Lexer.{ScanContext}
use nord.Syntax.{Ast, null, node, is_null}
use nord.Prelude.State.{continue, branch, check, done}
use nord.Parser.{Parser, Callees, skip}
use nord.Parser.Statements.{
  statements_from, statement_list, skip_lines, statement_block, function_rest, anonymous_decl,
  expression, end_of, variable_decl, export_prefix, function_named, function_decl,
}
use nord.Parser.Position.{
  Ends, goes, stops, At, At-later, continue-Ends, weaken-Ends, branch-Ends, null-Ends, accept-Ends,
  put_back-At,
}
use nord.Parser.Steps.{
  Kept, missing, reached, put_away, stays, lift-Ends, check-Ends, value_of-Ends, peek_is-Ends,
  peek_either-Ends, skip-Ends, list_expr_append_ends,
}
use nord.Parser.Operands.{Steps, Ready, no_room, expression_list-Within, or_else-Ends}
use nord.Parser.Progress.{assignment-Steps}

-- What a block leaves: it took its brace, or it put back the last token that was taken.
pub data Blocked (n p q : ℕ) : Ast → ScanContext → Type 0 where
  opened :
      {t : Ast} {c : ScanContext} {r s : ℕ} → p + 1 ≤ r → p ≤ s → At n r s c → Blocked n p q t c
  unopened : {c : ScanContext} → At n q q c → Blocked n p q null c

pub Blocked-At : {n p q : ℕ} {t : Ast} {c : ScanContext} → q ≤ p → Blocked n p q t c → At n q q c
Blocked-At o (opened k l a) = At-later (omega arith) (omega arith) (omega arith) a
Blocked-At o (unopened a) = a

-- After a check, the block took its brace.
opened-Ends :
    {n p q : ℕ} {t : Ast} {c : ScanContext} {A : Type 0} {P : A → ScanContext → Type 0}
    (next : Unit {0} → Parser A)
    → Blocked n p q t c
    → ((r s : ℕ) → p + 1 ≤ r → p ≤ s → At n r s c → Ends P (next tt c))
    → Ends P (continue (check (not (is_null t)) c) next)
unfolding check continue
opened-Ends next (unopened a) h = stops (cc)
opened-Ends {t = null} next (opened k l a) h = stops (cc)
opened-Ends {t = node m o} next (opened k l a) h = h _ _ k l a

end_of_ends : (name : Token) (t : Ast) → end_of name t ≢ fault out_of_fuel
end_of_ends name null = cc
end_of_ends name (node l n) = cc

-- a line end is taken, if there is one
line-Ends :
    {n p q : ℕ} (eol : Bool) (c : ScanContext)
    → At n p q c
    → Ends (λ u. At n p q) (branch eol skip done c)
line-Ends eol c a =
    branch-Ends eol skip done c
      (weaken-Ends (skip-Ends c a) λ u c' b. At-later (omega arith) a.ordered a.ordered b) (goes a)

skip_lines-Ends :
    {n q : ℕ} (fuel p : ℕ) (c : ScanContext)
    → At n p q c
    → n < p + fuel
    → Ends (λ u. At n p q) (skip_lines fuel c)
unfolding skip_lines
skip_lines-Ends zero p c a h = no_room c a h
skip_lines-Ends (suc fuel) p c a h = continue-Ends _ _ (peek_is-Ends c a _) λ eol c₁ a₁.
    branch-Ends eol _ _ c₁
      (continue-Ends _ _ (accept-Ends c₁ a₁) λ t c₂ a₂.
        weaken-Ends (skip_lines-Ends fuel (p + 1) c₂ a₂ (omega arith))
          λ u c' b. At-later (omega arith) a.ordered a.ordered b)
      (goes a₁)

-- A tree that was read after a token.
after-Ends :
    {n p q : ℕ} {m : Result (Ast × ScanContext)}
    → q ≤ p
    → Ends (Kept n (p + 1) p) m
    → Ends (Kept n p q) m
after-Ends o h = weaken-Ends h λ t c b. reached b.later b.behind o b.at

module _ (n : ℕ) (call : Callees) (ready : Ready n call) where
  statements_from-Ends :
      (fuel p q r s : ℕ) (left : Ast) (c : ScanContext)
      → q ≤ p
      → n < p + call.fuel
      → p ≤ r
      → q ≤ s
      → At n r s c
      → n < r + fuel
      → Ends (λ t. At n p q) (statements_from call fuel left c)
  unfolding statements_from
  statements_from-Ends zero p q r s left c o f k l a h = no_room c a h
  statements_from-Ends (suc fuel) p q r s left c o f k l a h =
      continue-Ends _ _ (peek_either-Ends c a _ _) λ ends c₁ a₁.
        branch-Ends ends _ _ c₁ (goes (At-later k l o a₁)) (
          continue-Ends _ _ (peek_is-Ends c₁ a₁ _) λ eol c₂ a₂.
            continue-Ends _ _ (line-Ends eol c₂ a₂) λ u c₃ a₃.
              continue-Ends _ _ (ready.statement r s c₃ a₃ (omega arith)) λ current c₄ b.
                null-Ends current _ _ c₄
                  (goes (At-later (omega (arith, b.later)) (omega (arith, b.behind)) o b.at))
                  λ e.
                    let (m, w) = b.moves e in
                    continue-Ends _ _ (lift-Ends c₄ b.at _ (list_expr_append_ends left current))
                      λ left' c₅ a₅.
                        statements_from-Ends fuel p q _ _ left' c₅ o f (omega arith)
                          (omega (arith, b.behind)) a₅ (omega arith))

  pub statement_list-Ends :
      (p q : ℕ) (c : ScanContext)
      → At n p q c
      → n < p + call.fuel
      → Ends (λ t. At n p q) (statement_list call c)
  unfolding statement_list
  statement_list-Ends p q c a h = continue-Ends _ _ (ready.statement p q c a h) λ current c₁ b.
      null-Ends current _ _ c₁ (goes (stays a.ordered b)) λ e.
        continue-Ends _ _ (lift-Ends c₁ b.at _ (list_expr_append_ends _ current)) λ left c₂ a₂.
          statements_from-Ends (suc call.fuel) p q _ _ left c₂ a.ordered h b.later b.behind a₂
            (omega (arith, b.later))

  pub statement_block-Ends :
      (p q : ℕ) (c : ScanContext)
      → At n p q c
      → n ≤ p + call.fuel
      → Ends (Blocked n p q) (statement_block call c)
  unfolding statement_block continue
  statement_block-Ends p q c a h = continue-Ends _ _ (peek_is-Ends c a _) λ eol c₁ a₁.
      continue-Ends _ _ (line-Ends eol c₁ a₁) λ u c₂ a₂.
        continue-Ends _ _ (peek_is-Ends c₂ a₂ _) λ opens c₃ a₃.
          branch-Ends opens _ _ c₃
            (continue-Ends _ _ (accept-Ends c₃ a₃) λ t c₄ a₄.
              continue-Ends _ _ (skip_lines-Ends (suc call.fuel) _ c₄ a₄ (omega arith)) λ v c₅ a₅.
                continue-Ends _ _ (statement_list-Ends _ _ c₅ a₅ (omega arith)) λ left c₆ a₆.
                  continue-Ends _ _ (check-Ends c₆ a₆ _) λ w c₇ a₇.
                    continue-Ends _ _ (accept-Ends c₇ a₇) λ close c₈ a₈.
                      branch-Ends _ _ _ c₈ (goes (opened (omega arith) (omega arith) a₈))
                        (stops (cc)))
            (goes (unopened (put_back-At c₃ a₃)))

  function_rest-Steps :
      (name : List ℕ) (exported : Bool) → Steps n call.fuel (function_rest call name exported)
  function_rest-Steps name exported p q c a h =
      continue-Ends _ _ (peek_is-Ends c a _) λ opens c₁ a₁.
        continue-Ends _ _
          (branch-Ends {P = λ t. At n p q} opens _ _ c₁
            (continue-Ends _ _ (accept-Ends c₁ a₁) λ t c₂ a₂.
              continue-Ends _ _ (expression_list-Within n call ready _ _ c₂ a₂ (omega arith))
                λ args c₃ b. continue-Ends _ _ (accept-Ends c₃ b.at) λ close c₄ a₄.
                  continue-Ends _ _ (check-Ends c₄ a₄ _) λ u c₅ a₅. goes (
                    At-later (omega (arith, b.later)) (omega (arith, b.later, a.ordered)) a.ordered
                      a₅))
            (goes a₁))
          λ args c₂ a₂.
            continue-Ends _ _ (statement_block-Ends p q c₂ a₂ h)
              λ body c₃ b. opened-Ends _ b λ r s k l a₃. goes (reached k l a.ordered a₃)

  pub anonymous_decl-Steps : Steps n call.fuel (anonymous_decl call)
  unfolding anonymous_decl continue
  anonymous_decl-Steps p q c a h = continue-Ends _ _ (peek_is-Ends c a _) λ keyword c₁ a₁.
      branch-Ends keyword _ _ c₁
        (continue-Ends _ _ (accept-Ends c₁ a₁) λ t c₂ a₂.
          continue-Ends _ _ (peek_either-Ends c₂ a₂ _ _) λ unnamed c₃ a₃.
            branch-Ends unnamed _ _ c₃
              (after-Ends a.ordered (function_rest-Steps _ _ _ _ c₃ a₃ (omega arith)))
              (goes (put_away a.ordered (put_back-At c₃ a₃))))
        (goes (missing a₁))

  pub expression-Steps : Steps n call.fuel (expression call)
  unfolding expression
  expression-Steps p q c a h =
      continue-Ends _ _ (assignment-Steps n call ready p q c a h)
        λ value c₁ b. or_else-Ends n call ready _ a.ordered h anonymous_decl-Steps b

  pub variable_decl-Steps : Steps n call.fuel (variable_decl call)
  unfolding variable_decl
  variable_decl-Steps p q c a h = continue-Ends _ _ (peek_either-Ends c a _ _) λ keyword c₁ a₁.
      branch-Ends keyword _ _ c₁
        (continue-Ends _ _ (accept-Ends c₁ a₁) λ var_type c₂ a₂.
          continue-Ends _ _ (peek_is-Ends c₂ a₂ _) λ named c₃ a₃.
            branch-Ends named _ _ c₃
              (continue-Ends _ _ (accept-Ends c₃ a₃) λ name c₄ a₄.
                continue-Ends _ _ (peek_is-Ends c₄ a₄ _) λ initialized c₅ a₅.
                  continue-Ends _ _
                    (branch-Ends {P = λ t. At n (p + 1) p} initialized _ _ c₅
                      (continue-Ends _ _ (accept-Ends c₅ a₅) λ t c₆ a₆.
                        weaken-Ends (expression-Steps _ _ c₆ a₆ (omega arith)) λ value c₇ b.
                          At-later (omega (arith, b.later)) (omega (arith, b.behind)) (omega arith)
                            b.at)
                      (goes (At-later (omega arith) (omega arith) (omega arith) a₅)))
                    λ right c₆ a₆. continue-Ends _ _ (value_of-Ends c₆ a₆ name) λ text c₇ a₇.
                      continue-Ends _ _ (lift-Ends c₇ a₇ _ (end_of_ends name right))
                        λ end c₈ a₈. goes (reached (omega arith) (omega arith) a.ordered a₈))
              (continue-Ends _ _ (accept-Ends c₃ a₃)
                λ bad c₄ a₄. continue-Ends _ _ (value_of-Ends c₄ a₄ bad) λ v c₅ a₅. stops (cc)))
        (goes (missing a₁))

  pub function_decl-Steps : Steps n call.fuel (function_decl call)
  unfolding function_decl export_prefix continue
  function_decl-Steps p q c a h =
      continue-Ends _ _ (prefix c a) λ exported c₁ a₁. named exported c₁ a₁
    where
      prefix : (c : ScanContext) → At n p q c → Ends (λ x. At n p q) (export_prefix c)
      prefix c a = continue-Ends _ _ (peek_is-Ends c a _) λ slash c₁ a₁.
          branch-Ends slash _ _ c₁
            (continue-Ends _ _ (accept-Ends c₁ a₁) λ t c₂ a₂.
              continue-Ends _ _ (peek_is-Ends c₂ a₂ _) λ exported c₃ a₃.
                branch-Ends exported _ _ c₃
                  (continue-Ends _ _ (accept-Ends c₃ a₃) λ u c₄ a₄.
                    continue-Ends _ _ (accept-Ends c₄ a₄) λ close c₅ a₅.
                      continue-Ends _ _ (check-Ends c₅ a₅ _) λ v c₆ a₆.
                        continue-Ends _ _ (peek_is-Ends c₆ a₆ _) λ eol c₇ a₇.
                          branch-Ends eol _ _ c₇
                            (continue-Ends _ _ (skip-Ends c₇ a₇) λ w c₈ a₈.
                              goes (At-later (omega arith) (omega (arith, a.ordered)) a.ordered a₈))
                            (goes (At-later (omega arith) (omega (arith, a.ordered)) a.ordered a₇)))
                  (goes (At-later (omega arith) a.ordered a.ordered (put_back-At c₃ a₃))))
            (goes a₁)

      named :
          (exported : Option Bool) (c : ScanContext)
          → At n p q c
          → Ends (Kept n p q) (function_named call exported c)
      named none c a = goes (missing a)
      named (some exported) c a = continue-Ends _ _ (peek_is-Ends c a _) λ keyword c₁ a₁.
          branch-Ends keyword _ _ c₁
            (continue-Ends _ _ (accept-Ends c₁ a₁) λ t c₂ a₂.
              continue-Ends _ _ (peek_is-Ends c₂ a₂ _) λ named c₃ a₃.
                branch-Ends named _ _ c₃
                  (continue-Ends _ _ (accept-Ends c₃ a₃) λ u c₄ a₄.
                    continue-Ends _ _ (value_of-Ends c₄ a₄ u) λ name c₅ a₅. after-Ends a.ordered (
                      function_rest-Steps name exported _ _ c₅
                        (At-later (omega arith) (omega arith) (omega arith) a₅) (omega arith)))
                  (goes (put_away a.ordered (put_back-At c₃ a₃))))
            (goes (missing a₁))
