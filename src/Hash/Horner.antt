-- ===== src/Hash/Horner.antt =====
-- src/util/hash.c: what the hash computes in its low 28 bits, those that a symbol map uses.
use Prim.Native.Nat.{bit_xor, bit_xor-bitwise, differ, digits}
use nord.Prelude.{
  ℕ, zero, suc, ◌+◌, ◌-◌, ◌*◌, ◌/◌, ◌%◌, ◌^◌, ◌≤◌, ◌≡◌, refl, ◌∙◌, List, [], ◌∷◌, ◌==◌, inl, inr,
  arith, Bool-cases, ==→eq,
}
use nord.Hash.{char_to_u64, high_byte, pjw_step, pjw_from, pjw_hash}

differ-zero : (a : ℕ) → differ a 0 ≡ a
differ-zero zero = refl
differ-zero (suc a) = refl

xor_digits-zero : (n a : ℕ) → a ≤ n → digits (λ b. b) differ n a 0 ≡ a
xor_digits-zero zero zero h = refl
xor_digits-zero zero (suc a) h = absurd (omega arith)
xor_digits-zero (suc n) zero h = refl
xor_digits-zero (suc n) (suc a) h =
    omega (arith, differ-zero (suc a % 2), xor_digits-zero n (suc a / 2) (omega arith))

bit_xor-zero : (a : ℕ) → bit_xor a 0 ≡ a
bit_xor-zero a = bit_xor-bitwise a 0 ∙ xor_digits-zero a a (omega arith)

-- The plain base-16 value of the bytes.
abbrev pub horner : ℕ → List ℕ → ℕ
horner hash [] = hash
horner hash (c ∷ cs) = horner (hash * 16 + char_to_u64 c) cs

high_byte_gone : (s : ℕ) → high_byte s / 2 ^ 48 ≡ 0
unfolding high_byte
high_byte_gone s = omega arith

-- The shift by 48 moves nothing back into the hash.
pub pjw_step_lem :
    (hash c : ℕ)
    → pjw_step hash c
      ≡ (hash * 2 ^ 4 + char_to_u64 c) % 2 ^ 64
        - high_byte ((hash * 2 ^ 4 + char_to_u64 c) % 2 ^ 64)
unfolding pjw_step
pjw_step_lem hash c =
    let s = (hash * 2 ^ 4 + char_to_u64 c) % 2 ^ 64 in
    elim (Bool-cases (high_byte s == 0)) [
      | inl none_high ↦ rw none_high (omega (arith, ==→eq (high_byte s) 0 none_high))
      | inr some_high ↦ rw (some_high, high_byte_gone s, bit_xor-zero s)
    ]

step_low :
    (hash c h : ℕ)
    → hash % 2 ^ 28 ≡ h % 2 ^ 28
    → pjw_step hash c % 2 ^ 28 ≡ (h * 16 + char_to_u64 c) % 2 ^ 28
unfolding high_byte
step_low hash c h e = rw (pjw_step_lem hash c) (omega arith)

from_low :
    (cs : List ℕ) (hash h : ℕ)
    → hash % 2 ^ 28 ≡ h % 2 ^ 28
    → pjw_from hash cs % 2 ^ 28 ≡ horner h cs % 2 ^ 28
unfolding pjw_from
from_low [] hash h e = e
from_low (c ∷ cs) hash h e =
    from_low cs (pjw_step hash c) (h * 16 + char_to_u64 c) (step_low hash c h e)

-- In its low 28 bits the hash is the base-16 value of the bytes: no byte is mixed back down.
pub pjw_hash-horner : (s : List ℕ) → pjw_hash s % 2 ^ 28 ≡ horner 0 s % 2 ^ 28
unfolding pjw_hash
pjw_hash-horner s = from_low s 0 0 refl
