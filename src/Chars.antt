-- ===== src/Chars.antt =====
-- src/util/match.c: classes of characters, and keywords. A text is the list of its bytes from the
-- pointer to the end of the buffer, the terminator included.
use nord.Prelude.{ℕ, Bool, false, ◌||◌, List, [], ◌∷◌, ◌==◌, if◌then◌else◌, length}
use nord.Prelude.Result.{Result, ok, fault, out_of_bounds, ◌>>=◌}

abbrev pub elem : ℕ → List ℕ → Bool
elem c [] = false
elem c (d ∷ ds) = c == d || elem c ds

abbrev pub reserved_chars : List ℕ
reserved_chars = b'(' ∷ b')' ∷ b'{' ∷ b'}' ∷ b':' ∷ b',' ∷ b'*' ∷ b'+' ∷ b'/' ∷ b'-' ∷ b'=' ∷ []

unfoldable pub is_reserved : ℕ → Bool
is_reserved c = elem c reserved_chars

unfoldable pub is_whitespace : ℕ → Bool
is_whitespace c = c == b' ' || c == b'\t' || c == b'\n'

unfoldable pub is_boundary : ℕ → Bool
unfolding is_reserved is_whitespace
is_boundary c = is_whitespace c || is_reserved c || c == 0

-- `memcmp`, up to the first difference, and the test of the byte that follows.
unfoldable pub boundary_after : List ℕ → List ℕ → Result Bool
unfolding is_boundary
boundary_after [] [] = fault out_of_bounds
boundary_after [] (c ∷ cs) = ok (is_boundary c)
boundary_after (k ∷ ks) [] = fault out_of_bounds
boundary_after (k ∷ ks) (c ∷ cs) = if k == c then boundary_after ks cs else ok false

unfoldable pub match_keyword : List ℕ → List ℕ → Result ℕ
unfolding boundary_after
match_keyword to_match c = boundary_after to_match c >>= λ b. ok (if b then length to_match else 0)
