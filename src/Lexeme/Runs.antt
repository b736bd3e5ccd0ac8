-- ===== src/Lexeme/Runs.antt =====
-- src/compiler/lex.c and src/util/match.c: how far the runs of bytes reach that the matchers take.
use nord.Prelude.{
  refl, ℕ, ◌+◌, ◌≤◌, ◌<◌, ◌≡◌, Bool, true, false, List, [], ◌∷◌, arith, if◌then◌else◌, length,
}
use nord.Prelude.Result.{Result, ok, fault, out_of_bounds, ◌>>=◌}
use nord.Chars.{match_keyword, boundary_after}
use nord.Lexeme.{
  identifier_from, match_identifier, number_from, float_from, string_from, comment_from,
  invalid_from,
}

-- The result of a loop, which may also leave the buffer, that started at `len`, before a text of `room` bytes.
abbrev pub Within : ℕ → ℕ → Result ℕ → Type 0
Within len room (ok n) = (len ≤ n) × (n < len + room)
Within len room (fault e) = e ≡ out_of_bounds

pub identifier_from-Within :
    (cs : List ℕ) (len : ℕ) → Within len (length cs) (identifier_from len cs)
unfolding identifier_from
identifier_from-Within [] len = ground arith
identifier_from-Within (c ∷ cs) len = ground (arith, identifier_from-Within cs (len + 1))

pub comment_from-Within : (cs : List ℕ) (len : ℕ) → Within len (length cs) (comment_from len cs)
unfolding comment_from
comment_from-Within [] len = ground arith
comment_from-Within (c ∷ cs) len = ground (arith, comment_from-Within cs (len + 1))

pub invalid_from-Within : (cs : List ℕ) (len : ℕ) → Within len (length cs) (invalid_from len cs)
unfolding invalid_from
invalid_from-Within [] len = ground arith
invalid_from-Within (c ∷ cs) len = ground (arith, invalid_from-Within cs (len + 1))

-- A result that may also be 0, for no match.
abbrev Upto : ℕ → Result ℕ → Type 0
Upto room (ok n) = n ≤ room
Upto room (fault e) = e ≡ out_of_bounds

pub number_from-Upto : (cs : List ℕ) (len : ℕ) → Upto (len + length cs) (number_from len cs)
unfolding number_from
number_from-Upto [] len = ground arith
number_from-Upto (c ∷ []) len = ground (arith, number_from-Upto [] (len + 1))
number_from-Upto (c ∷ d ∷ cs) len = ground (arith, number_from-Upto (d ∷ cs) (len + 1))

pub float_from-Upto :
    (cs : List ℕ) (len : ℕ) (seen : Bool) → Upto (len + length cs) (float_from seen len cs)
unfolding float_from
float_from-Upto [] len seen = ground arith
float_from-Upto (c ∷ cs) len true = ground (arith, float_from-Upto cs (len + 1) true)
float_from-Upto (c ∷ cs) len false =
    ground (arith, float_from-Upto cs (len + 1) true, float_from-Upto cs (len + 1) false)

-- The result of the loop over a text, which takes the quote at its end.
abbrev pub Past : ℕ → ℕ → Result ℕ → Type 0
Past len room (ok n) = (len < n) × (n ≤ len + room)
Past len room (fault e) = e ≡ out_of_bounds

pub string_from-Past : (cs : List ℕ) (len : ℕ) → Past len (length cs) (string_from len cs)
unfolding string_from
string_from-Past [] len = ground arith
string_from-Past (c ∷ cs) len = ground (arith, string_from-Past cs (len + 1))

-- The result of a test, which may leave the buffer.
abbrev Tested : Result Bool → Type 0
Tested (ok b) = Unit
Tested (fault e) = e ≡ out_of_bounds

boundary_after_length : (k cs : List ℕ) → boundary_after k cs ≡ ok true → length k < length cs
unfolding boundary_after
boundary_after_length [] [] h = cc
boundary_after_length [] (c ∷ cs) h = omega arith
boundary_after_length (k ∷ ks) [] h = cc
boundary_after_length (k ∷ ks) (c ∷ cs) h = ground (arith, boundary_after_length ks cs)

boundary_after-Tested : (k cs : List ℕ) → Tested (boundary_after k cs)
unfolding boundary_after
boundary_after-Tested [] [] = refl
boundary_after-Tested [] (c ∷ cs) = tt
boundary_after-Tested (k ∷ ks) [] = refl
boundary_after-Tested (k ∷ ks) (c ∷ cs) = ground (arith, boundary_after-Tested ks cs)

pub match_keyword-Upto : (k cs : List ℕ) → Upto (length cs) (match_keyword k cs)
unfolding match_keyword
match_keyword-Upto k cs =
    at (boundary_after k cs) (boundary_after-Tested k cs) (boundary_after_length k cs)
  where
    at :
        (r : Result Bool)
        → Tested r
        → (r ≡ ok true → length k < length cs)
        → Upto (length cs) (r >>= λ b. ok (if b then length k else 0))
    at (ok true) t h = omega (arith, h refl)
    at (ok false) t h = omega arith
    at (fault e) t h = t

pub match_identifier-Upto : (cs : List ℕ) → Upto (length cs) (match_identifier cs)
unfolding match_identifier
match_identifier-Upto [] = ground arith
match_identifier-Upto (c ∷ cs) = ground (arith, identifier_from-Within (c ∷ cs) 0)
