-- ===== src/Lexer/Tokens.antt =====
-- src/compiler/lex.c: `scan_input` against the plain sequence of tokens of a buffer.
use nord.Prelude.{
  ℕ, zero, suc, ◌+◌, ◌≤◌, ◌<◌, ◌≡◌, refl, ap, ◌∙◌, Bool, true, false, List, [], ◌∷◌, ◌++◌, ◌⊎◌, inl,
  inr, arith, length,
}
use mathlib.Core.List.{append_assoc}
use nord.Prelude.Result.{Result, ok, fault, out_of_bounds, ◌>>=◌}
use nord.Token.{Token, TokenList, token_list_add}
use nord.Token.Growth.{IsTokens, token_list_create-IsTokens, token_list_add-IsTokens}
use nord.Lexer.{ScanContext, next_token, is_cached, is_eof, scan_all, scan_input}
use nord.Lexer.Lookahead.{accepted, accept_fresh, taking}
use nord.Lexer.Spans.{InSpan, next_token-InSpan}

-- The tokens from a position on, by the scanning loop alone: with no lookahead and no context.
pub data Tokenizes (buffer : List ℕ) : ℕ → List Token → Type 0 where
  last :
      {p : ℕ} {t : Token} {ts : List Token}
      → next_token buffer p ≡ ok t
      → is_eof t.type ≡ true
      → ts ≡ []
      → Tokenizes buffer p (t ∷ ts)
  more :
      {p : ℕ} {t : Token} {ts : List Token}
      → next_token buffer p ≡ ok t
      → is_eof t.type ≡ false
      → Tokenizes buffer t.end ts
      → Tokenizes buffer p (t ∷ ts)

-- Tokens in order, none empty, none overlapping, within `size` bytes; only the last one is the end.
abbrev pub InOrder : ℕ → ℕ → List Token → Type 0
InOrder size p [] = ⊥
InOrder size p (t ∷ []) =
    (p ≤ t.start) × (t.start < t.end) × (t.end ≤ size) × (is_eof t.type ≡ true)
InOrder size p (t ∷ u ∷ ts) =
    (p ≤ t.start) × (t.start < t.end) × (is_eof t.type ≡ false) × InOrder size t.end (u ∷ ts)

pub Tokenizes-InOrder :
    {buffer : List ℕ} {p : ℕ} {ts : List Token}
    → Tokenizes buffer p ts
    → InOrder (length buffer) p ts
Tokenizes-InOrder {buffer} {p} (last {t} {ts} n e none_left) =
    let span = rw n at (next_token-InSpan buffer p) in rw none_left (span.0, span.1, span.2, e)
Tokenizes-InOrder {buffer} {p} (more {t} {ts} n e rest) = before ts (Tokenizes-InOrder rest)
  where
    before :
        (us : List Token) → InOrder (length buffer) t.end us → InOrder (length buffer) p (t ∷ us)
    before [] h = absurd h
    before (u ∷ us) h = let span = rw n at (next_token-InSpan buffer p) in (span.0, span.1, e, h)

-- The list that a run of the loop returns: what it started with, and the tokens from `p` on.
abbrev Scanned : List ℕ → ℕ → List Token → Result TokenList → Type 0
Scanned buffer p ts (ok list) =
    (new : List Token) × IsTokens list (ts ++ new) × Tokenizes buffer p new
Scanned buffer p ts (fault e) = e ≡ out_of_bounds

-- A token that was just accepted is no lookahead: it starts before the position.
accepted-fresh : (c : ScanContext) (t : Token) → t.start < t.end → is_cached (accepted c t) ≡ false
unfolding is_cached
accepted-fresh c t h = ground arith

module _ (c : ScanContext) (list : TokenList) (ts : List Token) (b : IsTokens list ts) where
  -- The end of a round, on a token that was taken.
  round :
      (again : ScanContext → TokenList → Result TokenList) (t : Token)
      → next_token c.buffer c.position ≡ ok t
      → ((list' : TokenList)
          → IsTokens list' (ts ++ t ∷ [])
          → Scanned c.buffer t.end (ts ++ t ∷ []) (again (accepted c t) list'))
      → Scanned c.buffer c.position ts (
          token_list_add list t >>= λ list'. elim (is_eof t.type) [
            | true ↦ ok list'
            | false ↦ again (accepted c t) list'
          ])
  round again t n rec =
      let (list', run, d) = token_list_add-IsTokens list ts t b in
      rw run (finish list' d (is_eof t.type) refl (again (accepted c t) list') (rec list' d))
    where
      finish :
          (list' : TokenList)
          → IsTokens list' (ts ++ t ∷ [])
          → (e : Bool) → is_eof t.type ≡ e
          → (r : Result TokenList) → Scanned c.buffer t.end (ts ++ t ∷ []) r
          → Scanned c.buffer c.position ts (elim e [ true ↦ ok list' | false ↦ r ])
      finish list' d true e r s = (t ∷ [], d, last n e refl)
      finish list' d false e (ok full) (new, all, rest) =
          (t ∷ new, rw append_assoc at all, more n e rest)
      finish list' d false e (fault f) s = s

  -- A whole round, from what the scanning loop gave.
  taken :
      (again : ScanContext → TokenList → Result TokenList) (r : Result Token)
      → next_token c.buffer c.position ≡ r
      → InSpan c.buffer c.position r
      → ((t : Token)
          → c.position < t.end
          → t.start < t.end
          → t.end ≤ length c.buffer
          → (list' : TokenList) → IsTokens list' (ts ++ t ∷ [])
          → Scanned c.buffer t.end (ts ++ t ∷ []) (again (accepted c t) list'))
      → Scanned c.buffer c.position ts (
          taking c r >>= λ r. token_list_add list r.0 >>= λ list'. elim (is_eof r.0.type) [
            | true ↦ ok list'
            | false ↦ again r.1 list'
          ])
  taken again (ok t) n span rec = round again t n (rec t (omega arith) span.1 span.2)
  taken again (fault e) n span rec = span

scan_all-Scanned :
    (fuel : ℕ) (c : ScanContext) (list : TokenList) (ts : List Token)
    → IsTokens list ts
    → is_cached c ≡ false
    → length c.buffer ≤ c.position + fuel
    → Scanned c.buffer c.position ts (scan_all (suc fuel) c list)
unfolding scan_all
scan_all-Scanned zero c list ts b fresh enough = rw (accept_fresh c fresh) (
    taken c list ts b (scan_all zero) (next_token c.buffer c.position) refl
      (next_token-InSpan c.buffer c.position) (λ t later span inside list' d. absurd (omega arith)))
scan_all-Scanned (suc fuel) c list ts b fresh enough = rw (accept_fresh c fresh) (
    taken c list ts b (scan_all (suc fuel)) (next_token c.buffer c.position) refl
      (next_token-InSpan c.buffer c.position)
      (λ t later span inside list' d.
        scan_all-Scanned fuel (accepted c t) list' (ts ++ t ∷ []) d (accepted-fresh c t span)
          (omega arith)))

-- `scan_input` ends on every buffer: it returns the tokens that the scanning loop finds one after
-- the other, up to and with the end token, or it reads past the buffer. Neither the lookahead nor
-- the growing array changes them.
pub scan_input-Tokenizes :
    (input : List ℕ)
    → ((list : TokenList) × (ts : List Token) × (scan_input input ≡ ok list)
        × IsTokens list ts
        × Tokenizes input 0 ts)
      ⊎ (scan_input input ≡ fault out_of_bounds)
unfolding scan_input is_cached
scan_input-Tokenizes input = outcome (scan_input input) refl (
    scan_all-Scanned (length input) _ _ [] (token_list_create-IsTokens 2 (omega arith)) refl
      (omega arith))
  where
    outcome :
        (r : Result TokenList)
        → scan_input input ≡ r
        → Scanned input 0 [] r
        → ((list : TokenList) × (ts : List Token) × (scan_input input ≡ ok list)
            × IsTokens list ts
            × Tokenizes input 0 ts)
          ⊎ (scan_input input ≡ fault out_of_bounds)
    outcome (ok list) e (new, b, t) = inl (list, new, e, b, t)
    outcome (fault f) e s = inr (e ∙ ap fault s)
