-- ===== src/Builtins/Range.antt =====
-- src/lang/builtins.c: what `builtin__range` builds.
use nord.Prelude.{
  ℕ, zero, suc, ◌+◌, ◌%◌, ◌^◌, ◌<◌, ◌≡◌, ◌≢◌, ap, sym, ◌∙◌, true, false, none, some, List, arith,
  ltb, leb, if◌then◌else◌, get_elem?, ne→==, lt→ltb, ltb→lt, ge→ltb, lt→leb,
}
use nord.Prelude.Result.{Result, ok}
use nord.Floats.{Floats}
use nord.Word.{wadd, wsub, slt}
use nord.Value.{Value, of_list}
use nord.Builtins.{numbers, stepped, range_value}

ltb-suc : (k n : ℕ) → ltb (suc k) (suc n) ≡ ltb k n
ltb-suc k n = ground arith

ltb-leb : (k d : ℕ) → ltb k (d + 1) ≡ leb k d
ltb-leb k d = ground arith

-- The length that the code computes from the two ends.
distance_lem : (a d : ℕ) → a < 2 ^ 32 → d + 1 < 2 ^ 31 → wadd (wsub (wadd a d) a) 1 ≡ d + 1
unfolding wadd wsub
distance_lem a d h k = omega arith

ends_lem : (a d : ℕ) → a < 2 ^ 32 → 0 < d → d + 1 < 2 ^ 31 → wadd a d ≢ a
unfolding wadd
ends_lem a d h p k e = omega arith

slt_asym : (a b : ℕ) → slt a b ≡ true → slt b a ≡ false
unfolding slt
slt_asym a b h =
    ge→ltb _ _ (omega (arith, ltb→lt ((a + 2 ^ 31) % 2 ^ 32) ((b + 2 ^ 31) % 2 ^ 32) h))

module _ (F : Floats) where
  open F use {Real}

  -- The values of a tuple, one for each index up to `d`.
  pub record IsProgression (r : Result (Value Real)) (d : ℕ) (value : ℕ → ℕ) : Type 0 where
    pub values : List (Value Real)
    pub is_tuple : r ≡ ok (Value.tuple (of_list values))
    pub elements :
        (k : ℕ) → get_elem? values k ≡ (if leb k d then some (Value.int (value k)) else none)

  numbers_lem :
      (step : ℕ → ℕ → ℕ) (begin n i k : ℕ)
      → get_elem? (numbers F step begin n i) k
        ≡ (if ltb k n then some (Value.int (step begin (i + k))) else none)
  unfolding numbers
  numbers_lem step begin zero i k = ground arith
  numbers_lem step begin (suc n) i zero =
      rw (lt→ltb 0 (suc n) (omega arith))
        (ap (λ j. some (Value.int (step begin j))) {x = i} {y = i + 0} (omega arith))
  numbers_lem step begin (suc n) i (suc k) =
      numbers_lem step begin n (i + 1) k
      ∙ ap (λ j. if ltb k n then some (Value.int (step begin j)) else none) {x = i + 1 + k}
          {y = i + suc k} (omega arith)
      ∙ rw (ltb-suc k n)

  stepped_lem :
      (step : ℕ → ℕ → ℕ) (begin d : ℕ)
      → d + 1 < 2 ^ 31
      → IsProgression (stepped F step begin (d + 1)) d (step begin)
  unfolding stepped
  stepped_lem step begin d h = record {
    values = numbers F step begin (d + 1) 0;
    is_tuple = rw (lt→leb (d + 1) (2 ^ 31) h);
    elements = λ k.
        numbers_lem step begin (d + 1) 0 k
        ∙ ap (λ j. if ltb k (d + 1) then some (Value.int (step begin j)) else none) {x = 0 + k}
            {y = k} (omega arith)
        ∙ rw (ltb-leb k d);
  }

  -- Between two different ends whose distance `d` leaves room for a length, the range runs through
  -- every number from the first end to the last, both included, upwards or downwards.
  pub range_value-IsProgression :
      (a d : ℕ)
      → a < 2 ^ 32
      → 0 < d
      → d + 1 < 2 ^ 31
      → slt a (wadd a d) ≡ true
      → IsProgression (range_value F a (wadd a d)) d (wadd a)
        × IsProgression (range_value F (wadd a d) a) d (wsub (wadd a d))
  unfolding range_value
  range_value-IsProgression a d a32 pos room up =
      let ends = ends_lem a d a32 pos room in
      (
        rw (ne→== a (wadd a d) (λ e. ends (sym e)), up, distance_lem a d a32 room)
            (stepped_lem wadd a d room),
        rw (ne→== (wadd a d) a ends, slt_asym a (wadd a d) up, distance_lem a d a32 room)
            (stepped_lem wsub (wadd a d) d room),
      )
