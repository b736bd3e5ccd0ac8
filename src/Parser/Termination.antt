-- ===== src/Parser/Termination.antt =====
-- src/compiler/parse.c: how the functions of the statements end, and the whole parser.
use nord.Prelude.{ℕ, zero, suc, ◌+◌, ◌≤◌, ◌≡◌, ◌≢◌, refl, List, ◌⊎◌, inl, inr, arith, length}
use nord.Prelude.Result.{Result, ok, fault, Fault, out_of_fuel}
use nord.Lexer.{ScanContext, initial, is_cached}
use nord.Syntax.{Ast, null, node}
use nord.Prelude.State.{continue, branch, pure, ◌>>=◌}
use nord.Parser.{Parser, Callees, otherwise, match_any}
use nord.Parser.Expressions.{primary}
use nord.Parser.Statements.{
  import_statement, if_statement, for_variable, for_statement, iterables, any_statement, statement,
  callees, parse,
}
use nord.Parser.Position.{
  Ends, goes, stops, At, At-later, continue-Ends, weaken-Ends, branch-Ends, null-Ends, accept-Ends,
  put_back-At,
}
use nord.Parser.Steps.{
  Kept, looked, missing, reached, otherwise-Ends, lift-Ends, value_of-Ends, peek_is-Ends,
  match_any-Ends, location_of_ends,
}
use nord.Parser.Operands.{Steps, Ready, no_room, primary-Steps, member_access-Steps, or_else-Ends}
use nord.Parser.Progress.{parse_unary-Steps}
use nord.Parser.Blocks.{
  Blocked, Blocked-At, statement_list-Ends, statement_block-Ends, anonymous_decl-Steps,
  expression-Steps, variable_decl-Steps, function_decl-Steps,
}

module _ (n : ℕ) (call : Callees) (ready : Ready n call) where
  import_statement-Steps : Steps n call.fuel import_statement
  unfolding import_statement
  import_statement-Steps p q c a h = continue-Ends _ _ (peek_is-Ends c a _) λ keyword c₁ a₁.
      branch-Ends keyword _ _ c₁
        (continue-Ends _ _ (accept-Ends c₁ a₁) λ t c₂ a₂.
          continue-Ends _ _ (peek_is-Ends c₂ a₂ _) λ path c₃ a₃.
            branch-Ends path _ _ c₃
              (continue-Ends _ _ (accept-Ends c₃ a₃) λ name c₄ a₄.
                continue-Ends _ _ (value_of-Ends c₄ a₄ name)
                  λ text c₅ a₅. goes (reached (omega arith) (omega arith) a.ordered a₅))
              (continue-Ends _ _ (accept-Ends c₃ a₃) λ u c₄ a₄. stops (cc)))
        (goes (missing a₁))

  -- the body of a conditional, which starts over after a block that is missing
  body-Ends :
      (p : ℕ) {r s : ℕ} (t : Ast) (c : ScanContext)
      → s ≤ r
      → p + 1 ≤ s
      → n ≤ p + call.fuel
      → Blocked n r s t c
      → Ends (λ u. At n (p + 1) p) (otherwise t call.call_statement c)
  unfolding branch
  body-Ends p {s = s} null c o h f d =
      weaken-Ends (ready.statement s s c (Blocked-At o d) (omega arith))
        λ u c' b. At-later (omega (arith, b.later)) (omega (arith, b.behind)) (omega arith) b.at
  body-Ends p (node l m) c o h f d =
      goes (At-later (omega arith) (omega arith) (omega arith) (Blocked-At o d))

  if_statement-Steps : Steps n call.fuel (if_statement call)
  unfolding if_statement
  if_statement-Steps p q c a h = continue-Ends _ _ (peek_is-Ends c a _) λ keyword c₁ a₁.
      branch-Ends keyword _ _ c₁
        (continue-Ends _ _ (accept-Ends c₁ a₁) λ t c₂ a₂.
          continue-Ends _ _ (expression-Steps n call ready _ _ c₂ a₂ (omega arith))
            λ condition c₃ b.
              null-Ends condition _ _ c₃
                (continue-Ends _ _ (accept-Ends c₃ b.at) λ u c₄ a₄. stops (cc))
                λ e.
                  let (m, k) = b.moves e in
                  continue-Ends _ _ (statement_block-Ends n call ready _ _ c₃ b.at (omega arith))
                    λ block c₄ d.
                      continue-Ends _ _ (body-Ends p block c₄ b.at.ordered k h d) λ body c₅ a₅.
                        null-Ends body _ _ c₅
                          (continue-Ends _ _ (accept-Ends c₅ a₅) λ u c₆ a₆.
                            continue-Ends _ _ (lift-Ends c₆ a₆ _ (location_of_ends condition))
                              λ l c₇ a₇. stops (cc))
                          λ e'. goes (reached (omega arith) (omega arith) a.ordered a₅))
        (goes (missing a₁))

  for_variable-Ends :
      (p q : ℕ) (c : ScanContext)
      → At n p q c
      → n ≤ p + call.fuel
      → Ends (λ r. Kept n p q (r.1)) (for_variable call c)
  unfolding for_variable continue
  for_variable-Ends p q c a h = continue-Ends _ _ (peek_is-Ends c a _) λ named c₁ a₁.
      branch-Ends named _ _ c₁
        (continue-Ends _ _ (accept-Ends c₁ a₁) λ t c₂ a₂.
          continue-Ends _ _ (peek_is-Ends c₂ a₂ _) λ within c₃ a₃.
            branch-Ends within _ _ c₃
              (continue-Ends _ _ (value_of-Ends c₃ a₃ t) λ var c₄ a₄.
                continue-Ends _ _ (accept-Ends c₄ a₄) λ u c₅ a₅.
                  continue-Ends _ _ (primary-Steps n call ready _ _ c₅ a₅ (omega arith))
                    λ iterable c₆ b.
                      goes
                        (reached (omega (arith, b.later)) (omega (arith, b.behind)) a.ordered b.at))
              (continue-Ends _ _
                (primary-Steps n call ready p q _
                  (At-later (omega arith) a.ordered a.ordered (put_back-At c₃ a₃)) h)
                λ iterable c₄ b. goes b))
        (goes (missing a₁))

  for_statement-Steps : Steps n call.fuel (for_statement call)
  unfolding for_statement
  for_statement-Steps p q c a h = continue-Ends _ _ (peek_is-Ends c a _) λ keyword c₁ a₁.
      branch-Ends keyword _ _ c₁
        (continue-Ends _ _ (accept-Ends c₁ a₁) λ t c₂ a₂.
          continue-Ends _ _ (for_variable-Ends _ _ c₂ a₂ (omega arith)) λ first c₃ b.
            continue-Ends _ _ (otherwise-Ends _ (omega arith) b (over c₃)) λ iterable c₄ d.
              null-Ends iterable _ _ c₄
                (continue-Ends _ _ (accept-Ends c₄ d.at) λ u c₅ a₅. stops (cc))
                λ e.
                  let (m, k) = d.moves e in
                  continue-Ends _ _
                    (statement_block-Ends n call ready _ _ c₄ d.at (omega (arith, m)))
                    λ body c₅ f.
                      null-Ends body _ _ c₅
                        (continue-Ends _ _ (accept-Ends c₅ (Blocked-At d.at.ordered f)) λ u c₆ a₆.
                          continue-Ends _ _ (lift-Ends c₆ a₆ _ (location_of_ends iterable))
                            λ l c₇ a₇. stops (cc))
                        λ e'.
                          goes (reached k (omega (arith, k)) a.ordered (Blocked-At d.at.ordered f)))
        (goes (missing a₁))
    where
      over :
          (c : ScanContext)
          → At n (p + 1) p c
          → Ends
              (Kept n (p + 1) p)
              ((match_any iterables >>= λ found. branch found (primary call) (pure null)) c)
      over c a = continue-Ends _ _ (match_any-Ends c a _) λ found c₁ a₁.
          branch-Ends found _ _ c₁ (primary-Steps n call ready _ _ c₁ a₁ (omega (arith, h)))
            (goes (missing a₁))

  any_statement-Steps :
      (p q : ℕ) (t : Ast) (c : ScanContext)
      → q ≤ p
      → n ≤ p + call.fuel
      → Kept n p q t c
      → Ends (Kept n p q) (any_statement call t c)
  unfolding any_statement
  any_statement-Steps p q t c o h b =
      continue-Ends _ _ (or_else (expression-Steps n call ready) b) λ t₁ c₁ b₁.
        continue-Ends _ _ (or_else (function_decl-Steps n call ready) b₁) λ t₂ c₂ b₂.
          continue-Ends _ _ (or_else (anonymous_decl-Steps n call ready) b₂) λ t₃ c₃ b₃.
            continue-Ends _ _ (or_else if_statement-Steps b₃) λ t₄ c₄ b₄.
              continue-Ends _ _ (or_else for_statement-Steps b₄)
                λ t₅ c₅ b₅. or_else import_statement-Steps b₅
    where
      or_else :
          {f : Parser Ast}
          → Steps n call.fuel f
          → {t : Ast} {c : ScanContext} → Kept n p q t c
          → Ends (Kept n p q) (otherwise t f c)
      or_else k b = or_else-Ends n call ready _ o h k b

  statement-Steps : Steps n call.fuel (statement call)
  unfolding statement
  statement-Steps p q c a h =
      continue-Ends _ _ (variable_decl-Steps n call ready p q c a h) λ declared c₁ b.
        continue-Ends _ _ (peek_is-Ends c₁ b.at _) λ returns c₂ a₂.
          branch-Ends returns _ _ c₂
            (continue-Ends _ _ (accept-Ends c₂ a₂) λ keyword c₃ a₃.
              continue-Ends _ _ (ready.statement _ _ c₃ a₃ (omega (arith, b.later))) λ operand c₄ d.
                goes (
                  reached (omega (arith, b.later, d.later)) (omega (arith, b.later, d.behind))
                    a.ordered d.at))
            (continue-Ends _ _ (any_statement-Steps p q declared c₂ a.ordered h (looked b a₂))
              λ left c₃ d. continue-Ends _ _ (peek_is-Ends c₃ d.at _) λ eol c₄ a₄.
                branch-Ends eol _ _ c₄
                  (continue-Ends _ _ (accept-Ends c₄ a₄) λ t c₅ a₅.
                    null-Ends left _ _ c₅
                      (weaken-Ends (ready.statement _ _ c₅ a₅ (omega (arith, d.later))) λ u c' f.
                        reached (omega (arith, d.later, f.later)) (omega (arith, d.later, f.behind))
                          a.ordered f.at)
                      λ e. goes (reached (omega (arith, d.later)) d.later a.ordered a₅))
                  (continue-Ends _ _ (peek_is-Ends c₄ a₄ _) λ u c₅ a₅. goes (looked d a₅)))

callees_fuel : (fuel : ℕ) → (callees fuel).fuel ≡ fuel
unfolding callees
callees_fuel zero = refl
callees_fuel (suc fuel) = refl

callees-Ready : (n fuel : ℕ) → Ready n (callees fuel)
unfolding callees
callees-Ready n zero = record {
  expression = λ p q c a h. no_room c a h;
  unary = λ p q c a h. no_room c a h;
  member_access = λ p q c a h. no_room c a h;
  statement = λ p q c a h. no_room c a h;
}
callees-Ready n (suc fuel) = record {
  expression = λ p q c a h.
      expression-Steps n (callees fuel) (callees-Ready n fuel) p q c a
        (omega (arith, callees_fuel fuel));
  unary = λ p q c a h.
      parse_unary-Steps n (callees fuel) (callees-Ready n fuel) p q c a
        (omega (arith, callees_fuel fuel));
  member_access = λ p q c a h.
      member_access-Steps n (callees fuel) (callees-Ready n fuel) p q c a
        (omega (arith, callees_fuel fuel));
  statement = λ p q c a h.
      statement-Steps n (callees fuel) (callees-Ready n fuel) p q c a
        (omega (arith, callees_fuel fuel));
}

initial-At : (buffer : List ℕ) → At (length buffer) 0 0 (initial buffer)
unfolding is_cached
initial-At buffer = record {
  bytes = refl;
  inside = omega arith;
  position = omega arith;
  previous = omega arith;
  ordered = omega arith;
  before = omega arith;
  last = λ h. absurd (omega arith);
  next = λ e. cc;
}

-- The parser ends on every buffer: with a tree and a position within the buffer, or by one of the
-- faults of the code. The fuel of the model is never used up, though a block that is missing puts
-- back a token that was taken before.
pub parse-ends :
    (buffer : List ℕ)
    → ((t : Ast) × (c : ScanContext) × (parse (initial buffer) ≡ ok (t, c))
        × (c.position ≤ length buffer))
      ⊎ ((why : Fault) × (parse (initial buffer) ≡ fault why) × (why ≢ out_of_fuel))
unfolding parse
parse-ends buffer = outcome (parse (initial buffer)) refl (
    statement_list-Ends (length buffer) (callees (suc (length buffer)))
      (callees-Ready _ (suc (length buffer))) 0 0 _ (initial-At buffer)
      (omega (arith, callees_fuel (suc (length buffer)))))
  where
    outcome :
        (r : Result (Ast × ScanContext))
        → parse (initial buffer) ≡ r
        → Ends (λ t. At (length buffer) 0 0) r
        → ((t : Ast) × (c : ScanContext) × (parse (initial buffer) ≡ ok (t, c))
            × (c.position ≤ length buffer))
          ⊎ ((why : Fault) × (parse (initial buffer) ≡ fault why) × (why ≢ out_of_fuel))
    outcome (ok (t, c)) e (goes a) = inl (t, c, e, a.inside)
    outcome (fault why) e (stops h) = inr (why, e, h)
