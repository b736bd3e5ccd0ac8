-- ===== src/Prelude/Holds.antt =====
-- Postconditions of a run, and a lemma for each way to compose runs.
use mathlib.Core.Path.{◌≡◌, subst}
use nord.Prelude.Result.{Result, Fault, ok, fault, ◌>>=◌}

-- The value, if there is one, satisfies `P`.
pub data Holds {A : Type 0} (P : A → Type 0) : Result A → Type 0 where
  value : {a : A} → P a → Holds P (ok a)
  none_left : {e : Fault} → Holds P (fault e)

pub then-Holds :
    {A B : Type 0} {Q : A → Type 0} {P : B → Type 0} {m : Result A} {f : A → Result B}
    → Holds Q m
    → ((a : A) → Q a → Holds P (f a))
    → Holds P (m >>= f)
then-Holds (value q) h = h _ q
then-Holds none_left h = none_left

pub weaken-Holds :
    {A : Type 0} {P Q : A → Type 0} {m : Result A} → Holds P m → ((a : A) → P a → Q a) → Holds Q m
weaken-Holds (value p) h = value (h _ p)
weaken-Holds none_left h = none_left

pub Holds-ok : {A : Type 0} {P : A → Type 0} {r : Result A} {a : A} → Holds P r → r ≡ ok a → P a
Holds-ok {P = P} (value p) h = subst P (cc) p
Holds-ok none_left h = cc
