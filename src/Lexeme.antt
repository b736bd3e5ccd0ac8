-- ===== src/Lexeme.antt =====
-- src/compiler/lex.c, the matching functions and the `switch` of `peek`: one lexeme at a pointer
-- into the buffer. A text is the list of its bytes from the pointer to the end of the buffer, the
-- terminator included; reading past it is a fault. A `char` is signed, so bytes from 128 on are
-- below every letter.
pub mod Runs
pub mod Bounds
pub mod Overrun
use nord.Prelude.{
  ℕ, suc, ◌+◌, Bool, true, false, ◌||◌, ◌&&◌, not, Option, none, some, List, [], ◌∷◌, ◌++◌, ltb,
  leb, ◌==◌, if◌then◌else◌,
}
use nord.Prelude.Result.{Result, ok, fault, out_of_bounds, indeterminate, ◌>>=◌}
use nord.Chars.{is_reserved, is_whitespace, is_boundary, match_keyword, elem}
use nord.Token.{TokenType}

-- The bounds checks on the first character of an identifier.
unfoldable pub starts_identifier : ℕ → Bool
starts_identifier c =
    if ltb c b'A' || leb 128 c
    then false
    else if ltb b'Z' c && ltb c b'a'
    then false
    else not (ltb b'z' c)

unfoldable pub ends_identifier : ℕ → Bool
unfolding is_reserved
ends_identifier c = c == b' ' || c == b'\t' || c == b'\n' || c == 0 || is_reserved c || c == b'.'

unfoldable pub identifier_from : ℕ → List ℕ → Result ℕ
unfolding ends_identifier
identifier_from len [] = fault out_of_bounds
identifier_from len (c ∷ cs) =
    let rest = identifier_from (len + 1) cs in if ends_identifier c then ok len else rest

unfoldable pub match_identifier : List ℕ → Result ℕ
unfolding starts_identifier identifier_from
match_identifier [] = fault out_of_bounds
match_identifier (c ∷ cs) = if starts_identifier c then identifier_from 0 (c ∷ cs) else ok 0

abbrev pub is_digit : ℕ → Bool
is_digit c = leb b'0' c && leb c b'9'

-- `*(c+1) == x`
abbrev pub next_is : ℕ → List ℕ → Result Bool
next_is x [] = fault out_of_bounds
next_is x (c ∷ cs) = ok (c == x)

unfoldable pub number_from : ℕ → List ℕ → Result ℕ
unfolding is_boundary
number_from len [] = fault out_of_bounds
number_from len (c ∷ cs) =
    let rest = number_from (len + 1) cs in
    let stop = if c == b'.' then next_is b'.' cs >>= (λ b. ok (if b then len else 0)) else ok 0 in
    if is_boundary c then ok len else if is_digit c then rest else stop

unfoldable pub match_number : List ℕ → Result ℕ
unfolding number_from
match_number c = number_from 0 c

unfoldable pub float_from : Bool → ℕ → List ℕ → Result ℕ
unfolding is_whitespace is_reserved
float_from seen_dot len [] = fault out_of_bounds
float_from seen_dot len (c ∷ cs) =
    let rest = float_from (seen_dot || c == b'.') (len + 1) cs in
    if is_whitespace c || c == 0 || is_reserved c
    then ok (if seen_dot then len else 0)
    else if is_digit c || (c == b'.' && not seen_dot)
    then rest
    else ok 0

unfoldable pub match_float : List ℕ → Result ℕ
unfolding float_from
match_float c = float_from false 0 c

-- The loop runs to the next quote, over terminators and line ends.
unfoldable pub string_from : ℕ → List ℕ → Result ℕ
string_from len [] = fault out_of_bounds
string_from len (c ∷ cs) =
    let rest = string_from (len + 1) cs in if c == b'"' then ok (len + 1) else rest

unfoldable pub match_string : List ℕ → Result ℕ
unfolding string_from
match_string [] = fault out_of_bounds
match_string (c ∷ cs) = if c == b'"' then string_from 1 cs else ok 0

unfoldable pub match_right_arrow : List ℕ → Result ℕ
match_right_arrow [] = fault out_of_bounds
match_right_arrow (c ∷ cs) =
    if c == b'-' then next_is b'>' cs >>= (λ b. ok (if b then 2 else 0)) else ok 0

-- The loop of a comment, after its sharp sign.
unfoldable pub comment_from : ℕ → List ℕ → Result ℕ
comment_from advance [] = fault out_of_bounds
comment_from advance (c ∷ cs) =
    let rest = comment_from (advance + 1) cs in if c == b'\n' then ok advance else rest

-- The loop over an invalid token, after its first character.
unfoldable pub invalid_from : ℕ → List ℕ → Result ℕ
unfolding is_whitespace
invalid_from advance [] = fault out_of_bounds
invalid_from advance (c ∷ cs) =
    let rest = invalid_from (advance + 1) cs in if is_whitespace c then ok advance else rest

-- A lexeme: its type, or none for blanks and comments, and its length.
pub record Lexeme : Type 0 where
  pub type : Option TokenType
  pub advance : ℕ

abbrev pub token : TokenType → ℕ → Result Lexeme
token t n = ok (record { type = some t; advance = n })

abbrev pub skip : ℕ → Result Lexeme
skip n = ok (record { type = none; advance = n })

-- The tail of the `switch`: characters that are consumed up to the next blank.
abbrev pub lex_invalid : List ℕ → Result Lexeme
lex_invalid cs = invalid_from 1 cs >>= token TokenType.invalid

-- An identifier where nothing else can match: the type stays unset if it is empty.
abbrev pub lex_identifier : List ℕ → Result Lexeme
lex_identifier c =
    match_identifier c >>= λ n. if n == 0 then fault indeterminate else token TokenType.identifier n

-- Keywords in turn, and then an identifier.
unfoldable pub lex_word : List (List ℕ × TokenType) → List ℕ → Result Lexeme
unfolding match_keyword match_identifier
lex_word [] c = lex_identifier c
lex_word ((k, t) ∷ keywords) c =
    let rest = lex_word keywords c in match_keyword k c >>= λ n. if n == 0 then rest else token t n

-- A sign that may be followed by `=`.
abbrev pub lex_pair : TokenType → TokenType → List ℕ → Result Lexeme
lex_pair short long cs = next_is b'=' cs >>= λ b. if b then token long 2 else token short 1

abbrev pub lex_dots : ℕ → List ℕ → Result Lexeme
lex_dots c cs =
    if c == b'.'
    then next_is b'.' cs >>= (λ b. if b then token TokenType.dot_dot 2 else token TokenType.dot 1)
    else lex_invalid cs

unfoldable pub lex_number : ℕ → List ℕ → Result Lexeme
unfolding match_number match_float invalid_from
lex_number c cs = match_number (c ∷ cs) >>= λ n.
    if n == 0
    then match_float (c ∷ cs) >>= (λ m. if m == 0 then lex_dots c cs else token TokenType.float m)
    else token TokenType.number n

-- The labels of the `switch`, one for each group of cases with the same body.
pub data Label : Type 0 where
  blank terminator newline sharp : Label
  single : TokenType → Label
  pair : TokenType → TokenType → Label
  dash quote digit_or_dot letter_f : Label
  letter : List (List ℕ × TokenType) → Label
  other : Label

-- The words "and", "exported", ... as bytes.
abbrev pub kw_and : List ℕ
kw_and = b'a' ∷ b'n' ∷ b'd' ∷ []

abbrev pub kw_exported : List ℕ
kw_exported = b'e' ∷ b'x' ∷ b'p' ∷ b'o' ∷ b'r' ∷ b't' ∷ b'e' ∷ b'd' ∷ []

abbrev pub kw_for : List ℕ
kw_for = b'f' ∷ b'o' ∷ b'r' ∷ []

abbrev pub kw_false : List ℕ
kw_false = b'f' ∷ b'a' ∷ b'l' ∷ b's' ∷ b'e' ∷ []

abbrev pub kw_if : List ℕ
kw_if = b'i' ∷ b'f' ∷ []

abbrev pub kw_in : List ℕ
kw_in = b'i' ∷ b'n' ∷ []

abbrev pub kw_import : List ℕ
kw_import = b'i' ∷ b'm' ∷ b'p' ∷ b'o' ∷ b'r' ∷ b't' ∷ []

abbrev pub kw_let : List ℕ
kw_let = b'l' ∷ b'e' ∷ b't' ∷ []

abbrev pub kw_nil : List ℕ
kw_nil = b'n' ∷ b'i' ∷ b'l' ∷ []

abbrev pub kw_or : List ℕ
kw_or = b'o' ∷ b'r' ∷ []

abbrev pub kw_return : List ℕ
kw_return = b'r' ∷ b'e' ∷ b't' ∷ b'u' ∷ b'r' ∷ b'n' ∷ []

abbrev pub kw_true : List ℕ
kw_true = b't' ∷ b'r' ∷ b'u' ∷ b'e' ∷ []

abbrev pub kw_var : List ℕ
kw_var = b'v' ∷ b'a' ∷ b'r' ∷ []

abbrev pub f_keywords : List (List ℕ × TokenType)
f_keywords = (kw_for, TokenType.for) ∷ (kw_false, TokenType.false_) ∷ []

abbrev pub find_label : ℕ → List (ℕ × Label) → Label
find_label c [] = other
find_label c ((d, l) ∷ rest) = if c == d then l else find_label c rest

abbrev pub sign_labels : List (ℕ × Label)
sign_labels =
    (b' ', blank)
    ∷ (b'\t', blank)
    ∷ (0, terminator)
    ∷ (b'\n', newline)
    ∷ (b'#', sharp)
    ∷ (b'=', pair TokenType.equal TokenType.equal_equal)
    ∷ (b'!', pair TokenType.bang TokenType.bang_equal)
    ∷ (b'>', pair TokenType.greater TokenType.greater_equal)
    ∷ (b'<', pair TokenType.less TokenType.less_equal)
    ∷ (b'(', single TokenType.l_paren)
    ∷ (b')', single TokenType.r_paren)
    ∷ (b'{', single TokenType.l_brace)
    ∷ (b'}', single TokenType.r_brace)
    ∷ (b':', single TokenType.colon)
    ∷ (b',', single TokenType.comma)
    ∷ (b'-', dash)
    ∷ (b'+', single TokenType.plus)
    ∷ (b'*', single TokenType.asterisk)
    ∷ (b'/', single TokenType.slash)
    ∷ (b'%', single TokenType.modulo)
    ∷ (b'"', quote)
    ∷ (b'.', digit_or_dot)
    ∷ []

abbrev pub letter_labels : List (ℕ × Label)
letter_labels =
    (b'a', letter ((kw_and, TokenType.and_) ∷ []))
    ∷ (b'e', letter ((kw_exported, TokenType.exported) ∷ []))
    ∷ (b'f', letter_f)
    ∷ (
      b'i',
      letter ((kw_if, TokenType.if_) ∷ (kw_in, TokenType.in_) ∷ (kw_import, TokenType.import) ∷ []),
    )
    ∷ (b'l', letter ((kw_let, TokenType.let_) ∷ []))
    ∷ (b'n', letter ((kw_nil, TokenType.nil_) ∷ []))
    ∷ (b'o', letter ((kw_or, TokenType.or_) ∷ []))
    ∷ (b'r', letter ((kw_return, TokenType.return) ∷ []))
    ∷ (b't', letter ((kw_true, TokenType.true_) ∷ []))
    ∷ (b'v', letter ((kw_var, TokenType.var) ∷ []))
    ∷ []

unfoldable pub label_of : ℕ → Label
label_of c = if is_digit c then digit_or_dot else find_label c (sign_labels ++ letter_labels)

-- The body of each case, at the character `c` with the text `cs` after it.
unfoldable pub lex_label : Label → ℕ → List ℕ → Result Lexeme
unfolding match_string match_right_arrow comment_from lex_word lex_number match_identifier
    invalid_from
lex_label blank c cs = skip 1
lex_label terminator c cs = token TokenType.eof 1
lex_label newline c cs = token TokenType.eol 1
lex_label sharp c cs = comment_from 1 cs >>= skip
lex_label (single t) c cs = token t 1
lex_label (pair short long) c cs = lex_pair short long cs
lex_label dash c cs = match_right_arrow (c ∷ cs) >>= λ n.
    if n == 0 then token TokenType.minus 1 else token TokenType.r_arrow n
lex_label quote c cs =
    match_string (c ∷ cs) >>= λ n. if n == 0 then fault indeterminate else token TokenType.string n
lex_label digit_or_dot c cs = lex_number c cs
lex_label letter_f c cs =
    let keywords = lex_word f_keywords (c ∷ cs) in
    next_is b'n' cs >>= λ b. if b then token TokenType.fn 2 else keywords
lex_label (letter keywords) c cs = lex_word keywords (c ∷ cs)
lex_label other c cs =
    let invalid = lex_invalid cs in
    match_identifier (c ∷ cs) >>= λ n. if n == 0 then invalid else token TokenType.identifier n

-- One round of the loop of `peek`.
unfoldable pub lex_one : List ℕ → Result Lexeme
unfolding label_of lex_label
lex_one [] = fault out_of_bounds
lex_one (c ∷ cs) = lex_label (label_of c) c cs
