-- ===== src/Lexer/Lookahead.antt =====
-- src/compiler/lex.c: `peek`, `accept` and `backup` agree on the next token.
use nord.Prelude.{◌≡◌, true, false, ◌⊎◌, inl, inr, arith}
use nord.Prelude.Result.{Result, ok, fault}
use nord.Token.{Token}
use nord.Lexer.{ScanContext, next_token, peek, accept, backup, is_cached}
use nord.Lexer.Spans.{next_token-InSpan}

abbrev pub peeked : ScanContext → Token → ScanContext
peeked c t = record c { lookahead = t }

abbrev pub accepted : ScanContext → Token → ScanContext
accepted c t = record c { position = t.end; previous = t; lookahead = t }

-- `accept` of a token that was read afresh.
abbrev pub taking : ScanContext → Result Token → Result (Token × ScanContext)
taking c (ok t) = ok (t, accepted c t)
taking c (fault e) = fault e

-- What `peek` returned, and the context it left.
pub peek_cases :
    (c c' : ScanContext) (t : Token)
    → peek c ≡ ok (t, c')
    → ((is_cached c ≡ true) × (t ≡ c.lookahead) × (c' ≡ c))
      ⊎ ((is_cached c ≡ false) × (next_token c.buffer c.position ≡ ok t) × (c' ≡ peeked c t))
unfolding peek
peek_cases c c' t h = ground arith

pub accept_cases :
    (c c' : ScanContext) (t : Token)
    → accept c ≡ ok (t, c')
    → ((is_cached c ≡ true) × (t ≡ c.lookahead) × (c' ≡ accepted c c.lookahead))
      ⊎ ((is_cached c ≡ false) × (next_token c.buffer c.position ≡ ok t) × (c' ≡ accepted c t))
unfolding accept peek
accept_cases c c' t h = ground arith

-- Without a token of lookahead, `accept` takes the next token of the buffer.
pub accept_fresh :
    (c : ScanContext) → is_cached c ≡ false → accept c ≡ taking c (next_token c.buffer c.position)
unfolding accept peek
accept_fresh c h = ground arith

-- After `peek`, both `peek` and `accept` give the token that it showed.
pub peek-accept :
    (c c' : ScanContext) (t : Token)
    → peek c ≡ ok (t, c')
    → (peek c' ≡ ok (t, c')) × (accept c' ≡ ok (t, accepted c' t)) × (accept c ≡ accept c')
unfolding peek accept is_cached
peek-accept c c' t h = elim (peek_cases c c' t h) [
  | inl (cached, shown, same) ↦ ground arith
  | inr (fresh, shown, same) ↦ ground arith
]

-- `backup` puts the accepted token back: `peek` shows it again, and `accept` takes it again.
pub backup-accept :
    (c c' : ScanContext) (t : Token)
    → accept c ≡ ok (t, c')
    → (peek (backup c') ≡ ok (t, backup c')) × (accept (backup c') ≡ ok (t, c'))
unfolding peek accept is_cached backup
backup-accept c c' t h = elim (accept_cases c c' t h) [
  | inl (cached, shown, same) ↦ ground arith
  | inr (fresh, shown, same) ↦
      let span = rw shown at (next_token-InSpan c.buffer c.position) in ground arith
]
