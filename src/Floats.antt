-- ===== src/Floats.antt =====
-- The C `float` of the machine's values: its operations are not part of the repository. The
-- argument of `of_int` is the 32-bit pattern of a signed number.
use nord.Prelude.{ℕ, ◌-◌, ◌^◌, ◌≤◌, ◌<◌, ◌≡◌, Bool, List, ◌⊎◌, ◌==◌}
use nord.Word.{slt}

pub record Floats : Type 1 where
  pub Real : Type 0
  pub of_int : ℕ → Real
  -- the conversion to `int`, as a pattern
  pub to_int : Real → ℕ
  pub add : Real → Real → Real
  pub sub : Real → Real → Real
  pub mul : Real → Real → Real
  pub div : Real → Real → Real
  pub lt : Real → Real → Bool
  pub eq : Real → Real → Bool
  -- `%f`
  pub show : Real → List ℕ

-- A number between -2 ^ 24 and 2 ^ 24.
abbrev pub IsSmall : ℕ → Type 0
IsSmall n = (n ≤ 2 ^ 24) ⊎ ((2 ^ 32 - 2 ^ 24 ≤ n) × (n < 2 ^ 32))

-- The conversion is exact on such numbers, so comparing the converted numbers compares them.
pub record IsExact (F : Floats) : Type 0 where
  pub eq-of_int : (a b : ℕ) → IsSmall a → IsSmall b → F.eq (F.of_int a) (F.of_int b) ≡ (a == b)
  pub lt-of_int : (a b : ℕ) → IsSmall a → IsSmall b → F.lt (F.of_int a) (F.of_int b) ≡ slt a b
