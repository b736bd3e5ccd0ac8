-- ===== src/Token.antt =====
-- src/compiler/token.c and token.h: the kinds of tokens, their names, and the growing list.
pub mod Growth
use Prim.Native.String.{String}
use nord.Prelude.{
  ℕ, ◌+◌, ◌*◌, Bool, Option, none, some, List, [], ◌++◌, ltb, ◌==◌, if◌then◌else◌, length, set,
  replicate,
}
use nord.Prelude.Result.{Result, ok, fault, out_of_bounds}

pub data TokenType : Type 0 where
  l_paren r_paren l_brace r_brace colon comma eol : TokenType
  equal bang : TokenType
  plus minus asterisk slash modulo : TokenType
  and_ or_ : TokenType
  greater greater_equal less less_equal equal_equal bang_equal : TokenType
  identifier string number float : TokenType
  var fn return true_ false_ nil_ for in_ let_ exported import : TokenType
  if_ : TokenType
  r_arrow dot dot_dot : TokenType
  invalid : TokenType
  eof : TokenType

pub record Token : Type 0 where
  pub type : TokenType
  pub start : ℕ
  pub end : ℕ

-- a `token_t` of zeroed storage
abbrev pub zero_token : Token
zero_token = record { type = l_paren; start = 0; end = 0 }

pub record TokenList : Type 0 where
  pub size : ℕ
  pub capacity : ℕ
  pub tokens : List (Option Token)

unfoldable pub token_list_create : ℕ → TokenList
token_list_create capacity = record {
  size = 0;
  capacity = capacity;
  tokens = replicate capacity none;
}

unfoldable pub double : TokenList → TokenList
double list =
    if list.size == list.capacity
    then record list {
      capacity = list.capacity * 2;
      tokens = list.tokens ++ replicate list.capacity none;
    }
    else list

unfoldable pub token_list_add : TokenList → Token → Result TokenList
unfolding double
token_list_add list t =
    let l = double list in
    if ltb l.size (length l.tokens)
    then ok (record l { tokens = set l.tokens l.size (some t); size = l.size + 1 })
    else fault out_of_bounds

unfoldable pub token_name : TokenType → String
token_name equal = "EQUAL"
token_name l_paren = "L_PAREN"
token_name r_paren = "R_PAREN"
token_name l_brace = "L_BRACE"
token_name r_brace = "R_BRACE"
token_name colon = "COLON"
token_name comma = "COMMA"
token_name eol = "EOL"
token_name if_ = "IF"
token_name and_ = "AND"
token_name or_ = "OR"
token_name bang = "BANG"
token_name bang_equal = "BANG_EQUAL"
token_name equal_equal = "EQUAL_EQUAL"
token_name less = "LESS"
token_name less_equal = "LESS_EQUAL"
token_name greater = "GREATER"
token_name greater_equal = "GREATER_EQUAL"
token_name minus = "MINUS"
token_name plus = "PLUS"
token_name asterisk = "ASTERISK"
token_name slash = "SLASH"
token_name modulo = "MODULO"
token_name identifier = "IDENTIFIER"
token_name string = "STRING"
token_name number = "NUMBER"
token_name float = "FLOAT"
token_name true_ = "TRUE"
token_name false_ = "FALSE"
token_name nil_ = "NIL"
token_name var = "VAR"
token_name fn = "FN"
token_name for = "FOR"
token_name in_ = "IN"
token_name return = "RETURN"
token_name invalid = "INVALID"
token_name let_ = "LET"
token_name exported = "EXPORTED"
token_name import = "IMPORT"
token_name dot = "DOT"
token_name dot_dot = "DOT_DOT"
token_name r_arrow = "R_ARROW"
token_name eof = "EOF"

-- The number that the enumeration gives a kind: what two kinds are compared by.
unfoldable pub type_number : TokenType → ℕ
type_number l_paren = 0
type_number r_paren = 1
type_number l_brace = 2
type_number r_brace = 3
type_number colon = 4
type_number comma = 5
type_number eol = 6
type_number equal = 7
type_number bang = 8
type_number plus = 9
type_number minus = 10
type_number asterisk = 11
type_number slash = 12
type_number modulo = 13
type_number and_ = 14
type_number or_ = 15
type_number greater = 16
type_number greater_equal = 17
type_number less = 18
type_number less_equal = 19
type_number equal_equal = 20
type_number bang_equal = 21
type_number identifier = 22
type_number string = 23
type_number number = 24
type_number float = 25
type_number var = 26
type_number fn = 27
type_number return = 28
type_number true_ = 29
type_number false_ = 30
type_number nil_ = 31
type_number for = 32
type_number in_ = 33
type_number let_ = 34
type_number exported = 35
type_number import = 36
type_number if_ = 37
type_number r_arrow = 38
type_number dot = 39
type_number dot_dot = 40
type_number invalid = 41
type_number eof = 42

unfoldable pub has_type : TokenType → Token → Bool
unfolding type_number
has_type type t = type_number t.type == type_number type
