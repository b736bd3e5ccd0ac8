-- ===== src/Lexer.antt =====
-- src/compiler/lex.c: the scanning context, with its one token of lookahead.
-- `name`, which only error messages show, is left out.
pub mod Spans
pub mod Lookahead
pub mod Tokens
use nord.Prelude.{
  ℕ, zero, suc, ◌+◌, ◌-◌, Bool, true, false, ◌&&◌, ◌||◌, Option, none, some, List, [], ◌∷◌, ltb,
  leb, ◌==◌, if◌then◌else◌, length, drop,
}
use nord.Prelude.Result.{Result, ok, fault, out_of_bounds, out_of_fuel, ◌>>=◌}
use nord.Token.{
  TokenType, Token, zero_token, TokenList, has_type, token_list_create, token_list_add,
}
use nord.Lexeme.{Lexeme, lex_one}

pub record ScanContext : Type 0 where
  pub buffer : List ℕ
  pub position : ℕ
  pub previous : Token
  pub lookahead : Token

-- The end of a round of the loop of `peek`: blanks and comments go around again.
abbrev pub resume : (ℕ → Result Token) → ℕ → Option TokenType → ℕ → Result Token
resume again start none position = again position
resume again start (some type) position = ok (record { type = type; start = start; end = position })

-- The loop of `peek` from a position. Each round takes fuel.
unfoldable pub scan : ℕ → List ℕ → ℕ → Result Token
scan zero buffer position = fault out_of_fuel
scan (suc fuel) buffer position = lex_one (drop position buffer) >>= λ l.
    resume (scan fuel buffer) position l.type (position + l.advance)

-- Every round advances, so one more round than there are bytes is enough.
abbrev pub next_token : List ℕ → ℕ → Result Token
next_token buffer position = scan (suc (length buffer)) buffer position

unfoldable pub is_cached : ScanContext → Bool
is_cached context = leb context.position context.lookahead.start && ltb 0 context.position

unfoldable pub peek : ScanContext → Result (Token × ScanContext)
unfolding is_cached
peek context =
    let fresh =
      next_token context.buffer context.position
      >>= (λ t. ok (t, record context { lookahead = t })) in
    if is_cached context then ok (context.lookahead, context) else fresh

unfoldable pub accept : ScanContext → Result (Token × ScanContext)
unfolding peek is_cached
accept context =
    let fresh =
      peek context >>= (λ r. ok (r.0, record (r.1) { position = r.0.end; previous = r.0 })) in
    if is_cached context
    then ok (
      context.lookahead,
      record context { position = context.lookahead.end; previous = context.lookahead },
    )
    else fresh

unfoldable pub backup : ScanContext → ScanContext
backup context = record context { position = context.previous.start; lookahead = context.previous }

-- One of the kinds of the argument list.
abbrev pub any_type : List TokenType → Token → Bool
any_type [] t = false
any_type (type ∷ types) t = has_type type t || any_type types t

unfoldable pub match : ScanContext → List TokenType → Result (Bool × ScanContext)
unfolding peek has_type
match context types = peek context >>= λ r. ok (any_type types r.0, r.1)

-- `value` is a C text: it ends at the first terminator of the bytes that were copied.
abbrev pub until_nul : List ℕ → List ℕ
until_nul [] = []
until_nul (c ∷ cs) = if c == 0 then [] else c ∷ until_nul cs

-- `memcpy` of `len` bytes
abbrev pub copy : ℕ → List ℕ → Result (List ℕ)
copy zero cs = ok []
copy (suc len) [] = fault out_of_bounds
copy (suc len) (c ∷ cs) = copy len cs >>= λ rest. ok (c ∷ rest)

abbrev pub is_string : TokenType → Bool
is_string TokenType.string = true
is_string _ = false

unfoldable pub token_value : ScanContext → Token → Result (List ℕ)
token_value context t =
    let len = t.end - t.start in
    if is_string t.type
    then copy (len - 2) (drop (t.start + 1) context.buffer) >>= (λ v. ok (until_nul v))
    else copy len (drop t.start context.buffer) >>= (λ v. ok (until_nul v))

abbrev pub is_eof : TokenType → Bool
is_eof TokenType.eof = true
is_eof _ = false

-- The loop of `scan_input`; each round takes fuel.
unfoldable pub scan_all : ℕ → ScanContext → TokenList → Result TokenList
scan_all zero context tokens = fault out_of_fuel
scan_all (suc fuel) context tokens = accept context >>= λ r.
    token_list_add tokens r.0 >>= λ tokens'. elim (is_eof r.0.type) [
      | true ↦ ok tokens'
      | false ↦ scan_all fuel r.1 tokens'
    ]

-- A context is zeroed but for the buffer.
abbrev pub initial : List ℕ → ScanContext
initial buffer = record {
  buffer = buffer;
  position = 0;
  previous = zero_token;
  lookahead = zero_token;
}

-- Every token takes a byte.
unfoldable pub scan_input : List ℕ → Result TokenList
unfolding scan_all
scan_input input = scan_all (suc (length input)) (initial input) (token_list_create 2)
