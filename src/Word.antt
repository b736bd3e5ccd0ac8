-- ===== src/Word.antt =====
-- The C `int` of a number value, as its 32-bit pattern, with the operations that the virtual
-- machine (src/machine/vm.c) applies to it. Arithmetic wraps, as the machine does where C leaves
-- an overflow open; the two divisions that trap are faults.
use nord.Prelude.{ℕ, ◌+◌, ◌-◌, ◌*◌, ◌%◌, ◌^◌, Bool, ◌&&◌, ◌||◌, ltb, leb, ◌==◌, if◌then◌else◌}
use nord.Prelude.Result.{Result, ok, fault, division}

unfoldable pub wadd : ℕ → ℕ → ℕ
wadd a b = (a + b) % 2 ^ 32

unfoldable pub wsub : ℕ → ℕ → ℕ
wsub a b = (a + 2 ^ 32 - b) % 2 ^ 32

unfoldable pub wmul : ℕ → ℕ → ℕ
wmul a b = a * b % 2 ^ 32

unfoldable pub wneg : ℕ → ℕ
wneg a = (2 ^ 32 - a) % 2 ^ 32

abbrev pub is_negative : ℕ → Bool
is_negative a = leb (2 ^ 31) a

-- The absolute value.
abbrev pub magnitude : ℕ → ℕ
magnitude a = if is_negative a then 2 ^ 32 - a else a

-- The remainder takes the sign of the dividend.
unfoldable pub wmod : ℕ → ℕ → Result ℕ
unfolding wneg
wmod a b =
    let r = magnitude a % magnitude b in
    if b == 0 || (a == 2 ^ 31 && b == 2 ^ 32 - 1)
    then fault division
    else ok (if is_negative a then wneg r else r)

-- `a < b` on signed numbers.
unfoldable pub slt : ℕ → ℕ → Bool
slt a b = ltb ((a + 2 ^ 31) % 2 ^ 32) ((b + 2 ^ 31) % 2 ^ 32)

-- An `int16_t`, widened to 32 bits.
unfoldable pub widen16 : ℕ → ℕ
widen16 v = if ltb v (2 ^ 15) then v else v + (2 ^ 32 - 2 ^ 16)

-- An `int`, widened to 64 bits.
unfoldable pub widen32 : ℕ → ℕ
widen32 a = if is_negative a then a + (2 ^ 64 - 2 ^ 32) else a
