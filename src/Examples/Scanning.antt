-- ===== src/Examples/Scanning.antt =====
-- Tests and witnesses of the scanner.
use nord.Prelude.{ℕ, ◌≡◌, refl, some, none, List, [], ◌∷◌, ◌⊎◌, inl}
use nord.Prelude.Result.{ok, fault, out_of_bounds}
use nord.Token
use nord.Token.{Token, TokenList, zero_token, token_list_create, token_list_add}
use nord.Token.Growth.{IsTokens}
use nord.Lexeme.{lex_one}
use nord.Lexeme.Bounds.{Fits, lex_one-Fits}
use nord.Lexeme.Overrun.{lex_one_overrun}
use nord.Lexer.{ScanContext, next_token, scan, peek, accept, backup, is_cached, scan_input}
use nord.Lexer.Spans.{InSpan, next_token-InSpan}
use nord.Lexer.Lookahead.{accepted, peek-accept, backup-accept}
use nord.Lexer.Tokens.{Tokenizes, last, more, InOrder, Tokenizes-InOrder, scan_input-Tokenizes}

-- "7 " with its terminator.
abbrev sample_text : List ℕ
sample_text = b'7' ∷ b' ' ∷ 0 ∷ []

abbrev number_token : Token
number_token = record { type = nord.Token.number; start = 0; end = 1 }

abbrev end_token : Token
end_token = record { type = nord.Token.eof; start = 2; end = 3 }

first_token : next_token sample_text 0 ≡ ok number_token
unfolding scan lex_one
first_token = refl

second_token : next_token sample_text 1 ≡ ok end_token
unfolding scan lex_one
second_token = refl

-- A line with no blank before an operator: a name goes on over `>`, which is not reserved.
scanned :
    scan_input (b'l' ∷ b'e' ∷ b't' ∷ b' ' ∷ b'n' ∷ b'>' ∷ b'=' ∷ b'"' ∷ b'"' ∷ 0 ∷ [])
    ≡ ok (record {
      size = 5;
      capacity = 8;
      tokens =
          some (record { type = nord.Token.let_; start = 0; end = 3 })
          ∷ some (record { type = nord.Token.identifier; start = 4; end = 6 })
          ∷ some (record { type = nord.Token.equal; start = 6; end = 7 })
          ∷ some (record { type = nord.Token.string; start = 7; end = 9 })
          ∷ some (record { type = nord.Token.eof; start = 9; end = 10 })
          ∷ none
          ∷ none
          ∷ none
          ∷ [];
    })
unfolding scan_input token_list_create token_list_add accept peek is_cached scan lex_one
scanned = refl

lex_one-Fits_example : Fits sample_text (lex_one sample_text)
lex_one-Fits_example = lex_one-Fits sample_text

lex_one_overrun_example : lex_one (b'#' ∷ b'x' ∷ 0 ∷ []) ≡ fault out_of_bounds
lex_one_overrun_example = lex_one_overrun b'#' (b'x' ∷ 0 ∷ []) (inl (refl, refl))

next_token-InSpan_example : InSpan sample_text 1 (next_token sample_text 1)
next_token-InSpan_example = next_token-InSpan sample_text 1

sample_tokens : Tokenizes sample_text 0 (number_token ∷ end_token ∷ [])
sample_tokens = more first_token refl (last second_token refl refl)

Tokenizes-InOrder_example : InOrder 3 0 (number_token ∷ end_token ∷ [])
Tokenizes-InOrder_example = Tokenizes-InOrder sample_tokens

scan_input-Tokenizes_example :
    ((list : TokenList) × (ts : List Token) × (scan_input sample_text ≡ ok list)
      × IsTokens list ts
      × Tokenizes sample_text 0 ts)
    ⊎ (scan_input sample_text ≡ fault out_of_bounds)
scan_input-Tokenizes_example = scan_input-Tokenizes sample_text

abbrev start_context : ScanContext
start_context = record {
  buffer = sample_text;
  position = 0;
  previous = zero_token;
  lookahead = zero_token;
}

abbrev shown_context : ScanContext
shown_context = record start_context { lookahead = number_token }

shown : peek start_context ≡ ok (number_token, shown_context)
unfolding peek is_cached scan lex_one
shown = refl

peek-accept_example :
    (peek shown_context ≡ ok (number_token, shown_context))
    × (accept shown_context ≡ ok (number_token, accepted shown_context number_token))
    × (accept start_context ≡ accept shown_context)
peek-accept_example = peek-accept start_context shown_context number_token shown

taken : accept start_context ≡ ok (number_token, accepted start_context number_token)
unfolding accept peek is_cached scan lex_one
taken = refl

backup-accept_example :
    let after = accepted start_context number_token in
    (peek (backup after) ≡ ok (number_token, backup after))
    × (accept (backup after) ≡ ok (number_token, after))
backup-accept_example =
    backup-accept start_context (accepted start_context number_token) number_token taken
