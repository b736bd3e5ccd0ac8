-- ===== src/Lexeme/Bounds.antt =====
-- src/compiler/lex.c: a lexeme is not empty and ends within the buffer.
use mathlib.Core.Path.{subst}
use nord.Prelude.{
  refl, sym, inl, inr, Bool-cases, ==→eq, ◌++◌, ℕ, ◌≤◌, ◌<◌, ◌≡◌, Bool, true, false, List, [], ◌∷◌,
  arith, ◌==◌, if◌then◌else◌, length,
}
use nord.Prelude.Result.{Result, ok, fault, out_of_bounds}
use nord.Token.{TokenType}
use nord.Lexeme.{
  starts_identifier, ends_identifier, is_digit, find_label, sign_labels, letter_labels,
  identifier_from, match_identifier, match_number, match_float, match_string, match_right_arrow,
  Lexeme, lex_word, lex_number, Label, label_of, lex_label, lex_one, f_keywords,
}
use nord.Lexeme.Runs.{
  Within, identifier_from-Within, comment_from-Within, invalid_from-Within, number_from-Upto,
  float_from-Upto, Past, string_from-Past, match_keyword-Upto, match_identifier-Upto,
}

-- A lexeme at `cs`: it takes at least one byte, and no byte past the end; or a read past the buffer.
abbrev pub Fits : List ℕ → Result Lexeme → Type 0
Fits cs (ok l) = (0 < l.advance) × (l.advance ≤ length cs)
Fits cs (fault e) = e ≡ out_of_bounds

-- A character that starts an identifier, of at least that character.
abbrev Starts : ℕ → Type 0
Starts c = (starts_identifier c ≡ true) × (ends_identifier c ≡ false)

match_identifier-Within :
    (c : ℕ) (cs : List ℕ) → Starts c → Within 1 (length cs) (match_identifier (c ∷ cs))
unfolding match_identifier identifier_from
match_identifier-Within c cs (starts, ends) = rw (starts, ends) (identifier_from-Within cs 1)

lex_word-Fits :
    (keywords : List (List ℕ × TokenType)) (c : ℕ) (cs : List ℕ)
    → Starts c
    → Fits (c ∷ cs) (lex_word keywords (c ∷ cs))
unfolding lex_word
lex_word-Fits [] c cs s = ground (arith, match_identifier-Within c cs s)
lex_word-Fits ((k, t) ∷ keywords) c cs s =
    ground (arith, match_keyword-Upto k (c ∷ cs), lex_word-Fits keywords c cs s)

lex_number-Fits : (c : ℕ) (cs : List ℕ) → Fits (c ∷ cs) (lex_number c cs)
unfolding lex_number match_number match_float
lex_number-Fits c [] =
    ground (
      arith,
      number_from-Upto (c ∷ []) 0,
      float_from-Upto (c ∷ []) 0 false,
      invalid_from-Within [] 1,
    )
lex_number-Fits c (d ∷ cs) = ground (
  arith,
  number_from-Upto (c ∷ d ∷ cs) 0,
  float_from-Upto (c ∷ d ∷ cs) 0 false,
  invalid_from-Within (d ∷ cs) 1,
)

match_string-Past : (cs : List ℕ) → Past 1 (length cs) (match_string (b'"' ∷ cs))
unfolding match_string
match_string-Past cs = string_from-Past cs 1

-- What a label says of the character it is the label of.
abbrev Spells : Label → ℕ → Type 0
Spells Label.quote c = c ≡ b'"'
Spells Label.letter_f c = Starts c
Spells (Label.letter keywords) c = Starts c
Spells l c = Unit

abbrev AllSpell : List (ℕ × Label) → Type 0
AllSpell [] = Unit
AllSpell ((d, l) ∷ rest) = Spells l d × AllSpell rest

find_label-Spells :
    (c : ℕ) (labels : List (ℕ × Label)) → AllSpell labels → Spells (find_label c labels) c
find_label-Spells c [] h = tt
find_label-Spells c ((d, l) ∷ rest) (first, h) = elim (Bool-cases (c == d)) [
  | inl e ↦ rw e (subst (Spells l) (sym (==→eq c d e)) first)
  | inr e ↦ rw e (find_label-Spells c rest h)
]

choice-Fits :
    (b : Bool) (cs : List ℕ) (x y : Result Lexeme)
    → Fits cs x
    → Fits cs y
    → Fits cs (if b then x else y)
choice-Fits true cs x y h k = h
choice-Fits false cs x y h k = k

label_of-Spells : (c : ℕ) → Spells (label_of c) c
unfolding label_of starts_identifier ends_identifier
label_of-Spells c = elim (Bool-cases (is_digit c)) [
  | inl e ↦ rw e tt
  | inr e ↦ rw e (find_label-Spells c (sign_labels ++ letter_labels) spelled)
]
  where
    spelled : AllSpell (sign_labels ++ letter_labels)
    spelled = (
      tt,
      (
        tt,
        (
          tt,
          (
            tt,
            (
              tt,
              (
                tt,
                (
                  tt,
                  (
                    tt,
                    (
                      tt,
                      (
                        tt,
                        (
                          tt,
                          (
                            tt,
                            (
                              tt,
                              (
                                tt,
                                (
                                  tt,
                                  (
                                    tt,
                                    (
                                      tt,
                                      (
                                        tt,
                                        (
                                          tt,
                                          (
                                            tt,
                                            (
                                              refl,
                                              (
                                                tt,
                                                (
                                                  (refl, refl),
                                                  (
                                                    (refl, refl),
                                                    (
                                                      (refl, refl),
                                                      (
                                                        (refl, refl),
                                                        (
                                                          (refl, refl),
                                                          (
                                                            (refl, refl),
                                                            (
                                                            (refl, refl),
                                                            (
                                                            (refl, refl),
                                                            ((refl, refl), ((refl, refl), tt)),
                                                            ),
                                                            ),
                                                          ),
                                                        ),
                                                      ),
                                                    ),
                                                  ),
                                                ),
                                              ),
                                            ),
                                          ),
                                        ),
                                      ),
                                    ),
                                  ),
                                ),
                              ),
                            ),
                          ),
                        ),
                      ),
                    ),
                  ),
                ),
              ),
            ),
          ),
        ),
      ),
    )

lex_label-Fits : (l : Label) (c : ℕ) (cs : List ℕ) → Spells l c → Fits (c ∷ cs) (lex_label l c cs)
unfolding lex_label match_right_arrow
lex_label-Fits Label.blank c cs s = omega arith
lex_label-Fits Label.terminator c cs s = omega arith
lex_label-Fits Label.newline c cs s = omega arith
lex_label-Fits Label.sharp c cs s = ground (arith, comment_from-Within cs 1)
lex_label-Fits (Label.single t) c cs s = omega arith
lex_label-Fits (Label.pair short long) c [] s = ground arith
lex_label-Fits (Label.pair short long) c (d ∷ cs) s = ground arith
lex_label-Fits Label.dash c [] s = ground arith
lex_label-Fits Label.dash c (d ∷ cs) s = ground arith
lex_label-Fits Label.quote c cs s = rw s (ground (arith, match_string-Past cs))
lex_label-Fits Label.digit_or_dot c cs s = lex_number-Fits c cs
lex_label-Fits Label.letter_f c [] s = ground arith
lex_label-Fits Label.letter_f c (d ∷ cs) s =
    choice-Fits (d == b'n') (c ∷ d ∷ cs) _ _ (omega arith) (lex_word-Fits f_keywords c (d ∷ cs) s)
lex_label-Fits (Label.letter keywords) c cs s = lex_word-Fits keywords c cs s
lex_label-Fits Label.other c cs s =
    ground (arith, match_identifier-Upto (c ∷ cs), invalid_from-Within cs 1)

-- Whatever the bytes, a lexeme takes at least one of them and none past the end of the buffer, if it
-- does not read past the buffer; every other fault is ruled out.
pub lex_one-Fits : (cs : List ℕ) → Fits cs (lex_one cs)
unfolding lex_one
lex_one-Fits [] = ground arith
lex_one-Fits (c ∷ cs) = lex_label-Fits (label_of c) c cs (label_of-Spells c)
