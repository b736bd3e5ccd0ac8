-- ===== src/Prelude/Result.antt =====
-- What a run of the C code may end in: a value, or one of the ways it can stop or leave the
-- defined behaviour of the language. `fault` is not caught anywhere.
use mathlib.Core.Path.{◌≡◌, refl}

pub data Fault : Type 0 where
  -- a read or a write outside an allocated array, or past the end of a text
  out_of_bounds : Fault
  -- a read of storage that was never written
  indeterminate : Fault
  -- an `assert` whose condition is false
  assertion : Fault
  -- an integer division that the hardware traps
  division : Fault
  -- a message and `exit(1)`
  exits : Fault
  -- a call through a null or stale pointer
  null_pointer : Fault
  -- the fuel of a loop of the model is used up
  out_of_fuel : Fault

pub data Result {ℓ} (Out : Type ℓ) : Type ℓ where
  fault : Fault → Result Out
  ok : Out → Result Out

-- The C code goes on only where nothing stopped it.
infixl 5 ◌>>=◌
abbrev pub ◌>>=◌ {ℓ κ} : {In : Type ℓ} {Out : Type κ} → Result In → (In → Result Out) → Result Out
fault why >>= next = fault why
ok value >>= next = next value

-- The same, where the operator has another meaning.
abbrev pub bind {ℓ κ} : {In : Type ℓ} {Out : Type κ} → Result In → (In → Result Out) → Result Out
bind first next = first >>= next

-- A sequence that reaches its end went through both of its parts.
pub >>=-eq-ok {ℓ κ} :
    {In : Type ℓ} {Out : Type κ} (first : Result In) (next : In → Result Out) {end : Out}
    → (first >>= next) ≡ ok end
    → (middle : In) × (first ≡ ok middle) × (next middle ≡ ok end)
>>=-eq-ok (fault why) next reached = cc
>>=-eq-ok (ok middle) next reached = (middle, refl, reached)
