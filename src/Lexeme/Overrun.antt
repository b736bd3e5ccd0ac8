-- ===== src/Lexeme/Overrun.antt =====
-- src/compiler/lex.c: the loops of the scanner that no terminator stops.
use nord.Prelude.{ℕ, ◌+◌, ◌≡◌, refl, false, List, [], ◌∷◌, ◌⊎◌, inl, inr, arith}
use nord.Prelude.Result.{fault, out_of_bounds}
use nord.Chars.{elem}
use nord.Lexeme.{comment_from, string_from, match_string, lex_one}

comment_overrun :
    (cs : List ℕ) (n : ℕ) → elem b'\n' cs ≡ false → comment_from n cs ≡ fault out_of_bounds
unfolding comment_from
comment_overrun [] n h = refl
comment_overrun (c ∷ cs) n h = ground (arith, comment_overrun cs (n + 1))

string_overrun :
    (cs : List ℕ) (n : ℕ) → elem b'"' cs ≡ false → string_from n cs ≡ fault out_of_bounds
unfolding string_from
string_overrun [] n h = refl
string_overrun (c ∷ cs) n h = ground (arith, string_overrun cs (n + 1))

-- A comment with no line end after it, or a string with no second quote, is read past the end of
-- the buffer, whatever terminators the text holds.
pub lex_one_overrun :
    (c : ℕ) (cs : List ℕ)
    → ((c ≡ b'#') × (elem b'\n' cs ≡ false)) ⊎ ((c ≡ b'"') × (elem b'"' cs ≡ false))
    → lex_one (c ∷ cs) ≡ fault out_of_bounds
unfolding lex_one match_string
lex_one_overrun c cs (inl (e, h)) = rw (e, comment_overrun cs 1 h)
lex_one_overrun c cs (inr (e, h)) = rw (e, string_overrun cs 1 h)
