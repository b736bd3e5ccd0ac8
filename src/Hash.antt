-- ===== src/Hash.antt =====
-- src/util/hash.c: the hash of the compiler's symbol maps. A text is the list of its bytes
-- before the terminator.
pub mod Horner
use Prim.Native.Nat.{bit_xor}
use nord.Prelude.{ℕ, ◌+◌, ◌-◌, ◌*◌, ◌/◌, ◌%◌, ◌^◌, List, [], ◌∷◌, ltb, ◌==◌, if◌then◌else◌}

-- `*string` is a signed `char`, converted to `uint64_t`.
unfoldable pub char_to_u64 : ℕ → ℕ
char_to_u64 c = if ltb c 128 then c else c + (2 ^ 64 - 2 ^ 8)

-- `hash & 0xF0000000`: the four bits above the low 28.
unfoldable pub high_byte : ℕ → ℕ
high_byte hash = hash / 2 ^ 28 % 16 * 2 ^ 28

-- The body of the loop. `hash &= ~high_byte` clears bits that are set, so it subtracts them: they
-- stand below bit 32, and what is xored in is shifted down by 48.
unfoldable pub pjw_step : ℕ → ℕ → ℕ
unfolding char_to_u64 high_byte
pjw_step hash c =
    let shifted = (hash * 2 ^ 4 + char_to_u64 c) % 2 ^ 64 in
    let high = high_byte shifted in
    if high == 0 then shifted else bit_xor shifted (high / 2 ^ 48) - high

unfoldable pub pjw_from : ℕ → List ℕ → ℕ
unfolding pjw_step
pjw_from hash [] = hash
pjw_from hash (c ∷ cs) = pjw_from (pjw_step hash c) cs

unfoldable pub pjw_hash : List ℕ → ℕ
unfolding pjw_from
pjw_hash string = pjw_from 0 string
