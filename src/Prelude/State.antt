-- ===== src/Prelude/State.antt =====
-- Computations that change a state and may stop: what the parser and the compiler are made of.
use mathlib.Core.Bool.{Bool, true, false}
use nord.Prelude.Result.{Result, Fault, ok, fault, assertion}

abbrev pub State {ℓ} : Type 0 → Type ℓ → Type ℓ
State S A = S → Result (A × S)

module _ {S : Type 0} where
  abbrev pub pure {ℓ} : {A : Type ℓ} → A → State S A
  pure a s = ok (a, s)

  -- A computation that does not touch the state.
  unfoldable pub lift {ℓ} : {A : Type ℓ} → Result A → State S A
  lift (ok a) s = ok (a, s)
  lift (fault why) s = fault why

  abbrev pub fail {ℓ} : {A : Type ℓ} → Fault → State S A
  fail why s = fault why

  module _ {ℓ κ} {A : Type ℓ} {B : Type κ} where
    unfoldable pub continue : Result (A × S) → (A → State S B) → Result (B × S)
    continue (fault why) next = fault why
    continue (ok r) next = next r.0 r.1

    infixl 1 ◌>>=◌ ◌>>◌
    abbrev pub ◌>>=◌ : State S A → (A → State S B) → State S B
    p >>= next = λ s. continue (p s) next

    abbrev pub ◌>>◌ : State S A → State S B → State S B
    p >> q = p >>= λ _. q

  -- Only the branch that is taken runs.
  unfoldable pub branch {ℓ} : {A : Type ℓ} → Bool → State S A → State S A → State S A
  branch true p q s = p s
  branch false p q s = q s

  -- `assert`
  unfoldable pub check : Bool → State S (Unit {0})
  check true = pure tt
  check false = fail assertion

  abbrev pub done : State S (Unit {0})
  done = pure tt
