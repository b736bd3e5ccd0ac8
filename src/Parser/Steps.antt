-- ===== src/Parser/Steps.antt =====
-- src/compiler/parse.c: the small steps of the parser and the position of the context.
use nord.Prelude.{
  ℕ, zero, suc, ◌+◌, ◌≤◌, ◌≡◌, ◌≢◌, Bool, true, false, List, [], ◌∷◌, ◌-◌, inl, inr, arith,
  Bool-cases,
}
use nord.Prelude.Result.{Result, ok, fault, out_of_fuel, bind}
use nord.Token.{Token, TokenType}
use nord.Lexer.{ScanContext, peek, match, any_type, token_value, copy, until_nul, is_string}
use nord.Syntax.{
  Ast, Asts, null, node, stmt_list, expr_list, var_list, tuple, is_null, location_of, append_items,
  list_expr_append,
}
use nord.Prelude.State.{branch, lift, check}
use nord.Parser.{Parser, otherwise, peek_is, peek_either, match_any, value_of, skip, join}
use nord.Parser.Position.{
  Ends, goes, stops, At, At-later, continue-Ends, branch-Ends, peek-Ends, accept-Ends,
}

-- What is done with a value that was computed does not end the run.
map_ends :
    {A B : Type 0} (r : Result A) (f : A → B)
    → r ≢ fault out_of_fuel
    → bind r (λ x. ok (f x)) ≢ fault out_of_fuel
map_ends (ok x) f h = cc
map_ends (fault why) f h = λ e. h (cc)

copy_ends : (len : ℕ) (cs : List ℕ) → copy len cs ≢ fault out_of_fuel
copy_ends zero cs = cc
copy_ends (suc len) [] = cc
copy_ends (suc len) (c ∷ cs) = map_ends (copy len cs) (λ rest. c ∷ rest) (copy_ends len cs)

token_value_ends : (c : ScanContext) (t : Token) → token_value c t ≢ fault out_of_fuel
unfolding token_value
token_value_ends c t = elim (Bool-cases (is_string t.type)) [
  | inl e ↦ rw e (map_ends _ until_nul (copy_ends (t.end - t.start - 2) _))
  | inr e ↦ rw e (map_ends _ until_nul (copy_ends (t.end - t.start) _))
]

append_items_ends : (k : ℕ) (ts : Asts) (t : Ast) → append_items k ts t ≢ fault out_of_fuel
unfolding append_items
append_items_ends k ts t = ground arith

pub list_expr_append_ends : (left t : Ast) → list_expr_append left t ≢ fault out_of_fuel
unfolding list_expr_append
list_expr_append_ends null t = cc
list_expr_append_ends (node l (stmt_list k ts)) t =
    map_ends _ (λ r. node l (stmt_list (r.0) (r.1))) (append_items_ends k ts t)
list_expr_append_ends (node l (expr_list k ts)) t =
    map_ends _ (λ r. node l (expr_list (r.0) (r.1))) (append_items_ends k ts t)
list_expr_append_ends (node l (var_list k ts)) t =
    map_ends _ (λ r. node l (var_list (r.0) (r.1))) (append_items_ends k ts t)
list_expr_append_ends (node l (tuple k ts)) t =
    map_ends _ (λ r. node l (tuple (r.0) (r.1))) (append_items_ends k ts t)
list_expr_append_ends (node l _) t = cc

pub location_of_ends : (t : Ast) → location_of t ≢ fault out_of_fuel
location_of_ends null = cc
location_of_ends (node l n) = cc

module _ {n p q : ℕ} (c : ScanContext) (a : At n p q c) where
  pub lift-Ends :
      {A : Type 0} (r : Result A) → r ≢ fault out_of_fuel → Ends (λ x. At n p q) (lift r c)
  unfolding lift
  lift-Ends (ok x) h = goes a
  lift-Ends (fault why) h = stops λ e. h (cc)

  pub check-Ends : (b : Bool) → Ends (λ x. At n p q) (check b c)
  unfolding check
  check-Ends true = goes a
  check-Ends false = stops (cc)

  pub value_of-Ends : (t : Token) → Ends (λ x. At n p q) (value_of t c)
  value_of-Ends t = lift-Ends (token_value c t) (token_value_ends c t)

  pub peek_is-Ends : (type : TokenType) → Ends (λ x. At n p q) (peek_is type c)
  peek_is-Ends type = continue-Ends _ _ (peek-Ends c a) λ t c' a'. goes a'

  pub match_any-Ends : (types : List TokenType) → Ends (λ x. At n p q) (match_any types c)
  unfolding match
  match_any-Ends types = at (peek c) (peek-Ends c a)
    where
      at :
          (r : Result (Token × ScanContext))
          → Ends (λ t. At n p q) r
          → Ends (λ x. At n p q) (bind r λ s. ok (any_type types s.0, s.1))
      at (ok r) (goes h) = goes h
      at (fault why) (stops h) = stops h

  pub skip-Ends : Ends (λ x. At n (p + 1) p) (skip c)
  skip-Ends = continue-Ends _ _ (accept-Ends c a) λ t c' a'. goes a'

pub peek_either-Ends :
    {n p q : ℕ} (c : ScanContext)
    → At n p q c
    → (s t : TokenType) → Ends (λ x. At n p q) (peek_either s t c)
peek_either-Ends c a s t =
    continue-Ends _ _ (peek_is-Ends c a s)
      λ first c₁ a₁. branch-Ends first _ _ c₁ (goes a₁) (peek_is-Ends c₁ a₁ t)

-- The context is no earlier than `p` and `q` say; where a tree was read, a token was taken.
pub record Kept (n p q : ℕ) (t : Ast) (c : ScanContext) : Type 0 where
  pub place : ℕ
  pub prior : ℕ
  pub at : At n place prior c
  pub later : p ≤ place
  pub behind : q ≤ prior
  pub moves : is_null t ≡ false → (p + 1 ≤ place) × (p ≤ prior)

pub no_tree : {A : Type 0} → is_null null ≡ false → A
no_tree e = cc

module _ {n p q : ℕ} {c : ScanContext} where
  abbrev pub missing : At n p q c → Kept n p q null c
  missing a = record {
    place = p;
    prior = q;
    at = a;
    later = omega arith;
    behind = omega arith;
    moves = no_tree;
  }

  -- a token was taken at least, since the context was at `p`
  abbrev pub reached : {t : Ast} {r s : ℕ} → p + 1 ≤ r → p ≤ s → q ≤ p → At n r s c → Kept n p q t c
  reached {r = r} {s = s} h k o a = record {
    place = r;
    prior = s;
    at = a;
    later = omega arith;
    behind = omega arith;
    moves = λ e. (h, k);
  }

  -- a token was taken and put back
  abbrev pub put_away : q ≤ p → At n p p c → Kept n p q null c
  put_away o a = record {
    place = p;
    prior = p;
    at = a;
    later = omega arith;
    behind = o;
    moves = no_tree;
  }

  pub stays : {t : Ast} → q ≤ p → Kept n p q t c → At n p q c
  stays o b = At-later b.later b.behind o b.at

  -- a look at the next token
  abbrev pub looked :
      {t : Ast} {c' : ScanContext} (b : Kept n p q t c) → At n b.place b.prior c' → Kept n p q t c'
  looked b a = record {
    place = b.place;
    prior = b.prior;
    at = a;
    later = b.later;
    behind = b.behind;
    moves = b.moves;
  }

  pub otherwise-Ends :
      {t : Ast} (next : Parser Ast)
      → q ≤ p
      → Kept n p q t c
      → (At n p q c → Ends (Kept n p q) (next c))
      → Ends (Kept n p q) (otherwise t next c)
  unfolding branch
  otherwise-Ends {t = null} next o b h = h (stays o b)
  otherwise-Ends {t = node l m} next o b h = goes b

pub join-Ends :
    {n p q : ℕ} {c : ScanContext} (left : Ast) (operator : Token) (right : Ast)
    → At n p q c
    → Ends (λ t. At n p q) (join left operator right c)
join-Ends left operator right a =
    continue-Ends _ _ (lift-Ends _ a _ (location_of_ends left))
      λ l c₁ a₁. continue-Ends _ _ (lift-Ends _ a₁ _ (location_of_ends right)) λ r c₂ a₂. goes a₂
