-- ===== src/Parser/Position.antt =====
-- src/compiler/parse.c: where the scanning context is as the parser goes on, and the steps that
-- look at a token, take one and put one back.
use nord.Prelude.{ℕ, ◌+◌, ◌≤◌, ◌<◌, ◌≡◌, ◌≢◌, refl, Bool, true, false, inl, inr, arith, length}
use mathlib.Core.Path.{subst}
use nord.Prelude.Result.{Result, ok, fault, Fault, out_of_fuel}
use nord.Token.{Token}
use nord.Lexer.{ScanContext, peek, accept, backup, is_cached, next_token}
use nord.Lexer.Spans.{InSpan, next_token-InSpan}
use nord.Lexer.Lookahead.{peek_cases, accept_cases, accepted, peeked}
use nord.Syntax.{Ast, null, node, is_null}
use nord.Prelude.State.{continue, branch}
use nord.Parser.{Parser}

-- A run that does not use up its fuel; what it returns satisfies `P`.
pub data Ends {A : Type 0} (P : A → ScanContext → Type 0) : Result (A × ScanContext) → Type 0 where
  goes : {a : A} {c : ScanContext} → P a c → Ends P (ok (a, c))
  stops : {why : Fault} → why ≢ out_of_fuel → Ends P (fault why)

module _ {A B : Type 0} {P : B → ScanContext → Type 0} where
  pub continue-Ends :
      {Q : A → ScanContext → Type 0} (m : Result (A × ScanContext)) (next : A → Parser B)
      → Ends Q m
      → ((a : A) (c : ScanContext) → Q a c → Ends P (next a c))
      → Ends P (continue m next)
  unfolding continue
  continue-Ends m next (goes q) h = h _ _ q
  continue-Ends m next (stops e) h = stops e

pub weaken-Ends :
    {A : Type 0} {P Q : A → ScanContext → Type 0} {m : Result (A × ScanContext)}
    → Ends P m
    → ((a : A) (c : ScanContext) → P a c → Q a c)
    → Ends Q m
weaken-Ends (goes p) h = goes (h _ _ p)
weaken-Ends (stops e) h = stops e

module _ {A : Type 0} {P : A → ScanContext → Type 0} where
  pub branch-Ends :
      (b : Bool) (p q : Parser A) (c : ScanContext)
      → Ends P (p c)
      → Ends P (q c)
      → Ends P (branch b p q c)
  unfolding branch
  branch-Ends true p q c h k = h
  branch-Ends false p q c h k = k

  -- the branches of a test for null
  pub null-Ends :
      (t : Ast) (p q : Parser A) (c : ScanContext)
      → Ends P (p c)
      → (is_null t ≡ false → Ends P (q c))
      → Ends P (branch (is_null t) p q c)
  unfolding branch
  null-Ends null p q c h k = h
  null-Ends (node l n) p q c h k = k refl

-- A context over a buffer of `n` bytes, whose position is `p` at least, and whose previous token
-- starts at `q` at least.
pub record At (n p q : ℕ) (c : ScanContext) : Type 0 where
  pub bytes : length c.buffer ≡ n
  pub inside : c.position ≤ n
  pub position : p ≤ c.position
  pub previous : q ≤ c.previous.start
  pub ordered : q ≤ p
  pub before : c.previous.start ≤ c.position
  -- the tokens that are there are not empty, and in the buffer
  pub last : 0 < c.previous.start → (c.previous.start < c.previous.end) × (c.previous.end ≤ n)
  pub next : is_cached c ≡ true → (c.lookahead.start < c.lookahead.end) × (c.lookahead.end ≤ n)

module _ {n p q : ℕ} where
  pub At-later :
      {p' q' : ℕ} {c : ScanContext} → p' ≤ p → q' ≤ q → q' ≤ p' → At n p q c → At n p' q' c
  At-later h k o a = record {
    bytes = a.bytes;
    inside = a.inside;
    position = omega (arith, a.position);
    previous = omega (arith, a.previous);
    ordered = o;
    before = a.before;
    last = a.last;
    next = a.next;
  }

  module _ (c : ScanContext) (a : At n p q c) where
    -- where a token that is read afresh lies
    fresh-InSpan :
        (r : Result Token) → next_token c.buffer c.position ≡ r → InSpan c.buffer c.position r
    fresh-InSpan r e = subst (InSpan c.buffer c.position) e (next_token-InSpan c.buffer c.position)

    next_faults : (why : Fault) → next_token c.buffer c.position ≡ fault why → why ≢ out_of_fuel
    next_faults why e = λ f. let over = fresh-InSpan (fault why) e in cc

    peek_faults : (why : Fault) → peek c ≡ fault why → why ≢ out_of_fuel
    unfolding peek
    peek_faults why e = ground (arith, next_faults why)

    accept_faults : (why : Fault) → accept c ≡ fault why → why ≢ out_of_fuel
    unfolding accept peek
    accept_faults why e = ground (arith, next_faults why)

    peeked-At : (t : Token) → next_token c.buffer c.position ≡ ok t → At n p q (peeked c t)
    peeked-At t e =
        let span = fresh-InSpan (ok t) e in
        record {
          bytes = a.bytes;
          inside = a.inside;
          position = a.position;
          previous = a.previous;
          ordered = a.ordered;
          before = a.before;
          last = a.last;
          next = λ _. (span.1, omega (arith, span.2, a.bytes));
        }

    accepted-At :
        (t : Token)
        → c.position ≤ t.start
        → t.start < t.end
        → t.end ≤ n
        → At n (p + 1) p (accepted c t)
    unfolding is_cached
    accepted-At t h k l = record {
      bytes = a.bytes;
      inside = l;
      position = omega (arith, a.position);
      previous = omega (arith, a.position);
      ordered = omega arith;
      before = omega arith;
      last = λ _. (k, l);
      next = λ e. absurd (ground arith);
    }

    pub peek-Ends : Ends (λ t. At n p q) (peek c)
    peek-Ends = at (peek c) refl
      where
        at : (r : Result (Token × ScanContext)) → peek c ≡ r → Ends (λ t. At n p q) r
        at (ok (t, c')) e = goes (elim (peek_cases c c' t e) [
          | inl (cached, shown, same) ↦ rw same a
          | inr (fresh, shown, same) ↦ rw same (peeked-At t shown)
        ])
        at (fault why) e = stops (peek_faults why e)

    cached_start : is_cached c ≡ true → c.position ≤ c.lookahead.start
    unfolding is_cached
    cached_start e = ground arith

    pub accept-Ends : Ends (λ t. At n (p + 1) p) (accept c)
    accept-Ends = at (accept c) refl
      where
        at : (r : Result (Token × ScanContext)) → accept c ≡ r → Ends (λ t. At n (p + 1) p) r
        at (ok (t, c')) e = goes (elim (accept_cases c c' t e) [
          | inl (cached, shown, same) ↦
              rw same
                (accepted-At c.lookahead (cached_start cached) (a.next cached).0 (a.next cached).1)
          | inr (fresh, shown, same) ↦
              let span = fresh-InSpan (ok t) shown in
              rw same (accepted-At t span.0 span.1 (omega (arith, span.2, a.bytes)))
        ])
        at (fault why) e = stops (accept_faults why e)

    -- One token back is at the previous token.
    pub put_back-At : At n q q (backup c)
    unfolding is_cached backup
    put_back-At = record {
      bytes = a.bytes;
      inside = omega (arith, a.inside, a.before);
      position = a.previous;
      previous = a.previous;
      ordered = omega arith;
      before = omega arith;
      last = a.last;
      next = λ e. a.last (ground arith);
    }
