-- ===== src/Parser/Gives.antt =====
-- Postconditions of the functions of src/compiler/parse.c, with a lemma for each way in which they
-- are put together.
use nord.Prelude.{ℕ, ◌≡◌, refl, Bool, true, false, not, List}
use mathlib.Core.Path.{subst}
use nord.Prelude.Result.{Result, ok, fault, Fault, bind}
use nord.Prelude.Holds.{Holds, value, none_left}
use nord.Token.{Token, TokenType, has_type}
use nord.Lexer.{ScanContext, peek, accept, match, any_type}
use nord.Syntax.{Ast, Location, location_of, null, node}
use nord.Lexer.Lookahead.{peek-accept}
use nord.Prelude.State.{◌>>=◌, branch, continue, lift, check}
use nord.Parser.{Parser, peek_is, match_any, otherwise}
use nord.Parser.Tree.{Formed, OrNull, nothing, found}

-- What the parser reads, if it reads something, satisfies `P`.
pub data Gives {A : Type 0} (P : A → Type 0) : Result (A × ScanContext) → Type 0 where
  reads : {a : A} {c : ScanContext} → P a → Gives P (ok (a, c))
  stops : {why : Fault} → Gives P (fault why)

module _ {A B : Type 0} {P : B → Type 0} where
  pub continue-Gives :
      {Q : A → Type 0} (m : Result (A × ScanContext)) (next : A → Parser B)
      → Gives Q m
      → ((a : A) (c : ScanContext) → Q a → Gives P (next a c))
      → Gives P (continue m next)
  unfolding continue
  continue-Gives m next (reads q) h = h _ _ q
  continue-Gives m next stops h = stops

  -- the same, where what was read first does not matter
  pub next-Gives :
      (m : Result (A × ScanContext)) (next : A → Parser B)
      → ((a : A) (c : ScanContext) → Gives P (next a c))
      → Gives P (continue m next)
  unfolding continue
  next-Gives (ok r) next h = h _ _
  next-Gives (fault why) next h = stops

module _ {A : Type 0} {P : A → Type 0} where
  pub branch-Gives :
      (b : Bool) (p q : Parser A) (c : ScanContext)
      → (b ≡ true → Gives P (p c))
      → (b ≡ false → Gives P (q c))
      → Gives P (branch b p q c)
  unfolding branch
  branch-Gives true p q c h k = h refl
  branch-Gives false p q c h k = k refl

  pub lift-Gives : (r : Result A) (c : ScanContext) → Holds P r → Gives P (lift r c)
  unfolding lift
  lift-Gives r c (value p) = reads p
  lift-Gives r c none_left = stops

  pub check-Gives :
      (b : Bool) (next : Unit {0} → Parser A) (c : ScanContext)
      → (b ≡ true → (c' : ScanContext) → Gives P (next tt c'))
      → Gives P (continue (check b c) next)
  unfolding check continue
  check-Gives true next c h = h refl _
  check-Gives false next c h = stops

module _ {A : Type 0} {P : A → Type 0} (next : Token → Parser A) (q : Parser A) where
  -- What follows a look at the next token: where it passes the test, `accept` takes that token.
  shown-Gives :
      (test : Token → Bool) (c : ScanContext) (shown : Result (Token × ScanContext))
      → peek c ≡ shown
      → ((t : Token) → test t ≡ true → (c' : ScanContext) → Gives P (next t c'))
      → ((c' : ScanContext) → Gives P (q c'))
      → Gives P (continue shown λ t. branch (test t) (accept >>= next) q)
  unfolding continue
  shown-Gives test c (fault why) e h k = stops
  shown-Gives test c (ok (t, c')) e h k =
      let (_, taken, _) = peek-accept c c' t e in
      branch-Gives (test t) _ _ c' (λ passed. rw taken (h t passed _)) (λ _. k c')

  pub matched-Gives :
      (types : List TokenType) (c : ScanContext)
      → ((t : Token) → any_type types t ≡ true → (c' : ScanContext) → Gives P (next t c'))
      → ((c' : ScanContext) → Gives P (q c'))
      → Gives P (continue (match_any types c) λ found. branch found (accept >>= next) q)
  unfolding match continue
  matched-Gives types c h k = at (peek c) (shown-Gives (any_type types) c (peek c) refl h k)
    where
      at :
          (r : Result (Token × ScanContext))
          → Gives P (continue r λ t. branch (any_type types t) (accept >>= next) q)
          → Gives P (
              continue
                (bind r λ s. ok (any_type types s.0, s.1))
                λ found. branch found (accept >>= next) q)
      at (ok r) g = g
      at (fault why) g = stops

  pub peeked-Gives :
      (type : TokenType) (c : ScanContext)
      → ((t : Token) → has_type type t ≡ true → (c' : ScanContext) → Gives P (next t c'))
      → ((c' : ScanContext) → Gives P (q c'))
      → Gives P (continue (peek_is type c) λ found. branch found (accept >>= next) q)
  unfolding continue
  peeked-Gives type c h k = at (peek c) (shown-Gives (has_type type) c (peek c) refl h k)
    where
      at :
          (r : Result (Token × ScanContext))
          → Gives P (continue r λ t. branch (has_type type t) (accept >>= next) q)
          → Gives P (
              continue
                (continue r λ t context. ok (has_type type t, context))
                λ found. branch found (accept >>= next) q)
      at (ok r) g = g
      at (fault why) g = stops

pub otherwise-Gives :
    {n : ℕ} {t : Ast} (p : Parser Ast) (c : ScanContext)
    → OrNull n t
    → Gives (OrNull n) (p c)
    → Gives (OrNull n) (otherwise t p c)
unfolding branch
otherwise-Gives p c nothing h = h
otherwise-Gives {t = node l n} p c (found f) h = reads (found f)
otherwise-Gives {t = null} p c (found f) h = h

-- Every tree that `p` reads is of level `n`, or null.
abbrev pub Reads : ℕ → Parser Ast → Type 0
Reads n p = (c : ScanContext) → Gives (OrNull n) (p c)

pub not-true : {b : Bool} → not b ≡ true → b ≡ false
not-true {b = true} h = cc
not-true {b = false} h = refl

pub weaken-Gives :
    {A : Type 0} {P Q : A → Type 0} {m : Result (A × ScanContext)}
    → Gives P m
    → ((a : A) → P a → Q a)
    → Gives Q m
weaken-Gives (reads p) h = reads (h _ p)
weaken-Gives stops h = stops

-- What reads the location of a tree goes on only where there is a tree.
pub located-Gives :
    {A : Type 0} {P : A → Type 0} {n : ℕ} {t : Ast} (next : Location → Parser A) (c : ScanContext)
    → OrNull n t
    → (Formed n t → (l : Location) (c' : ScanContext) → Gives P (next l c'))
    → Gives P (continue (lift (location_of t) c) next)
unfolding lift continue
located-Gives next c nothing h = stops
located-Gives {t = null} next c (found f) h = stops
located-Gives {t = node l n} next c (found f) h = h f l c

pub Gives-ok :
    {A : Type 0} {P : A → Type 0} {m : Result (A × ScanContext)} {a : A} {c : ScanContext}
    → Gives P m
    → m ≡ ok (a, c)
    → P a
Gives-ok {P = P} (reads p) e = subst P (cc) p
Gives-ok stops e = cc
