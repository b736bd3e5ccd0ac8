-- ===== src/Lexer/Spans.antt =====
-- src/compiler/lex.c: where the tokens lie, and that the scanning loop ends.
use nord.Prelude.{
  ℕ, zero, suc, ◌+◌, ◌-◌, ◌≤◌, ◌<◌, ◌≡◌, refl, Option, none, some, List, [], ◌∷◌, arith, length,
  drop,
}
use nord.Prelude.Result.{Result, ok, fault, out_of_bounds, ◌>>=◌}
use nord.Token.{TokenType, Token}
use nord.Lexeme.{Lexeme, lex_one}
use nord.Lexeme.Bounds.{Fits, lex_one-Fits}
use nord.Lexer.{scan, resume, next_token}
use native.Mathlib.Nat.{le_refl}

length-drop : (n : ℕ) (xs : List ℕ) → length (drop n xs) ≡ length xs - n
length-drop zero xs = omega arith
length-drop (suc n) [] = omega arith
length-drop (suc n) (x ∷ xs) = omega (arith, length-drop n xs)

-- A token after `position`, not empty, within the buffer; or a read past the buffer.
abbrev pub InSpan : List ℕ → ℕ → Result Token → Type 0
InSpan buffer position (ok t) = (position ≤ t.start) × (t.start < t.end) × (t.end ≤ length buffer)
InSpan buffer position (fault e) = e ≡ out_of_bounds

InSpan-later :
    (buffer : List ℕ) (p q : ℕ) (r : Result Token) → p ≤ q → InSpan buffer q r → InSpan buffer p r
InSpan-later buffer p q (ok t) h s = (omega arith, s.1, s.2)
InSpan-later buffer p q (fault e) h s = s

module _ (buffer : List ℕ) (p : ℕ) (again : ℕ → Result Token) where
  resume-InSpan :
      (o : Option TokenType) (q : ℕ)
      → p < q
      → q ≤ length buffer
      → (o ≡ none → InSpan buffer q (again q))
      → InSpan buffer p (resume again p o q)
  resume-InSpan none q h k rec = InSpan-later buffer p q (again q) (omega arith) (rec refl)
  resume-InSpan (some t) q h k rec = (le_refl p, h, k)

  round-InSpan :
      (r : Result Lexeme)
      → Fits (drop p buffer) r
      → ((q : ℕ) → p < q → q ≤ length buffer → InSpan buffer q (again q))
      → InSpan buffer p (r >>= λ l. resume again p l.type (p + l.advance))
  round-InSpan (ok l) f rec =
      let inside : p + l.advance ≤ length buffer = omega (arith, f, length-drop p buffer) in
      let moves : p < p + l.advance = omega (arith, f.0) in
      resume-InSpan l.type (p + l.advance) moves inside (λ _. rec (p + l.advance) moves inside)
  round-InSpan (fault e) f rec = f

scan-InSpan :
    (buffer : List ℕ) (fuel p : ℕ)
    → length buffer ≤ p + fuel
    → InSpan buffer p (scan (suc fuel) buffer p)
unfolding scan
scan-InSpan buffer zero p h =
    round-InSpan buffer p (scan zero buffer) (lex_one (drop p buffer))
      (lex_one-Fits (drop p buffer)) (λ q before inside. absurd (omega arith))
scan-InSpan buffer (suc fuel) p h =
    round-InSpan buffer p (scan (suc fuel) buffer) (lex_one (drop p buffer))
      (lex_one-Fits (drop p buffer)) (λ q before inside. scan-InSpan buffer fuel q (omega arith))

-- The scanning loop ends from every position of every buffer: with a token that lies after the
-- position, takes at least one byte and ends within the buffer, or by reading past the buffer.
pub next_token-InSpan : (buffer : List ℕ) (p : ℕ) → InSpan buffer p (next_token buffer p)
next_token-InSpan buffer p = scan-InSpan buffer (length buffer) p (omega arith)
