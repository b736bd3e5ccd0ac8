-- ===== src/Token/Growth.antt =====
-- src/compiler/token.c: a token list is a list of tokens under `token_list_add`.
use nord.Prelude.{
  ℕ, ◌+◌, ◌*◌, ◌<◌, ◌≤◌, ◌≡◌, refl, none, some, List, [], ◌∷◌, ◌++◌, inl, inr, arith, ◌==◌,
  Bool-cases, lt→ltb, ==→eq, ==→ne, length, set, length-replicate,
}
use nord.Prelude.Result.{ok}
use nord.Prelude.Slots.{Holds, set-Holds, extend-Holds, written}
use nord.Token.{Token, TokenList, token_list_create, double, token_list_add}

-- The list stores the tokens `ts`, in an array that was allocated with some capacity.
pub record IsTokens (list : TokenList) (ts : List Token) : Type 0 where
  pub holds : Holds list.size list.capacity list.tokens ts
  pub fits : list.size ≤ list.capacity
  pub nonempty : 0 < list.capacity

pub token_list_create-IsTokens : (n : ℕ) → 0 < n → IsTokens (token_list_create n) []
unfolding token_list_create written
token_list_create-IsTokens n h = record {
  holds = record { elements = refl; allocated = length-replicate n none };
  fits = omega arith;
  nonempty = h;
}

double-IsTokens :
    (list : TokenList) (ts : List Token)
    → IsTokens list ts
    → IsTokens (double list) ts × ((double list).size < (double list).capacity)
unfolding double
double-IsTokens list ts b = elim (Bool-cases (list.size == list.capacity)) [
  | inl full ↦
      let e = ==→eq list.size list.capacity full in
      rw full (
        record {
          holds = extend-Holds list.capacity (list.capacity * 2) (omega arith) b.holds;
          fits = omega (arith, b.fits);
          nonempty = omega (arith, b.nonempty);
        },
        omega (arith, b.nonempty),
      )
  | inr spare ↦ rw spare (b, omega (arith, b.fits, ==→ne list.size list.capacity spare))
]

-- In a list that was created with a positive capacity an addition never leaves the array, and
-- appends the token.
pub token_list_add-IsTokens :
    (list : TokenList) (ts : List Token) (t : Token)
    → IsTokens list ts
    → (list' : TokenList) × (token_list_add list t ≡ ok list') × IsTokens list' (ts ++ t ∷ [])
unfolding token_list_add
token_list_add-IsTokens list ts t b =
    let l = double list in
    let (d, room) = double-IsTokens list ts b in
    (
      record l { tokens = set l.tokens l.size (some t); size = l.size + 1 },
      rw (lt→ltb l.size (length l.tokens) (omega (arith, d.holds.allocated, room))),
      record {
        holds = set-Holds t d.holds room;
        fits = omega (arith, room);
        nonempty = d.nonempty;
      },
    )
