-- ===== src/Prelude/Slots.antt =====
-- The storage of a growable array: one slot for each element of its capacity, `none` where
-- nothing was written since the allocation.
use Prim.Native.Nat.{ℕ, zero, suc, ◌+◌, ◌<◌}
use mathlib.Core.Path.{◌≡◌, refl, ap, ◌∙◌}
use mathlib.Core.Option
use mathlib.Core.Option.{Option, none, some}
use mathlib.Core.List.{List, [], ◌∷◌, ◌++◌}
use native.Mathlib.Omega.{arith}
use native.Mathlib.Numerals.{add-one}
use nord.Prelude.Lists.{
  length, set, get_elem?, replicate, length-set, length-append, length-replicate,
}

abbrev consed {ℓ} : {A : Type ℓ} → A → Option (List A) → Option (List A)
consed x none = none
consed x (some xs) = some (x ∷ xs)

-- The first `n` elements, if all of them were written.
unfoldable pub written {ℓ} : {A : Type ℓ} → ℕ → List (Option A) → Option (List A)
written zero s = some []
written (suc n) [] = none
written (suc n) (none ∷ s) = none
written (suc n) (some x ∷ s) = consed x (written n s)

module _ {ℓ} {A : Type ℓ} where
  consed-eq-some :
      (x : A) (o : Option (List A)) (ys : List A)
      → consed x o ≡ some ys
      → (xs : List A) × (o ≡ some xs) × (ys ≡ x ∷ xs)
  consed-eq-some x none ys h = cc
  consed-eq-some x (some xs) ys h = (xs, refl, ground arith)

  pub written-set :
      (n : ℕ) (s : List (Option A)) (xs : List A) (x : A)
      → n < length s
      → written n s ≡ some xs
      → written (suc n) (set s n (some x)) ≡ some (xs ++ x ∷ [])
  unfolding written
  written-set zero [] xs x h e = absurd (omega arith)
  written-set zero (y ∷ s) xs x h e = ground arith
  written-set (suc n) [] xs x h e = cc
  written-set (suc n) (none ∷ s) xs x h e = cc
  written-set (suc n) (some y ∷ s) xs x h e =
      let (ys, e₁, e₂) = consed-eq-some y (written n s) xs e in
      rw (written-set n s ys x (omega arith) e₁, e₂)

  pub written-append :
      (n : ℕ) (s t : List (Option A)) (xs : List A)
      → written n s ≡ some xs
      → written n (s ++ t) ≡ some xs
  unfolding written
  written-append zero s t xs e = e
  written-append (suc n) [] t xs e = cc
  written-append (suc n) (none ∷ s) t xs e = cc
  written-append (suc n) (some y ∷ s) t xs e =
      let (ys, e₁, e₂) = consed-eq-some y (written n s) xs e in rw (written-append n s t ys e₁, e₂)

  pub length-written :
      (n : ℕ) (s : List (Option A)) (xs : List A) → written n s ≡ some xs → length xs ≡ n
  unfolding written
  length-written zero s xs e = ground arith
  length-written (suc n) [] xs e = cc
  length-written (suc n) (none ∷ s) xs e = cc
  length-written (suc n) (some y ∷ s) xs e =
      let (ys, e₁, e₂) = consed-eq-some y (written n s) xs e in
      rw e₂ (ap suc (length-written n s ys e₁))

  pub get_elem?-written :
      (n : ℕ) (s : List (Option A)) (xs : List A) (i : ℕ)
      → written n s ≡ some xs
      → i < n
      → get_elem? s i ≡ Option.map some (get_elem? xs i)
  unfolding written
  get_elem?-written zero s xs i e h = absurd (omega arith)
  get_elem?-written (suc n) [] xs i e h = cc
  get_elem?-written (suc n) (none ∷ s) xs i e h = cc
  get_elem?-written (suc n) (some y ∷ s) xs zero e h =
      let (ys, e₁, e₂) = consed-eq-some y (written n s) xs e in rw e₂
  get_elem?-written (suc n) (some y ∷ s) xs (suc i) e h =
      let (ys, e₁, e₂) = consed-eq-some y (written n s) xs e in
      rw e₂ (get_elem?-written n s ys i e₁ (omega arith))

-- An array of `size` elements `xs` in `capacity` slots.
pub record Holds {ℓ} {A : Type ℓ} (size capacity : ℕ) (slots : List (Option A)) (xs : List A)
    : Type ℓ where
  pub elements : written size slots ≡ some xs
  pub allocated : length slots ≡ capacity

module _ {ℓ} {A : Type ℓ} {size capacity : ℕ} {slots : List (Option A)} {xs : List A} where
  -- The store after a growth check.
  pub set-Holds :
      (x : A)
      → Holds size capacity slots xs
      → size < capacity
      → Holds (size + 1) capacity (set slots size (some x)) (xs ++ x ∷ [])
  set-Holds x h room = record {
    elements = rw add-one (written-set size slots xs x (omega (arith, h.allocated)) h.elements);
    allocated = length-set slots size (some x) ∙ h.allocated;
  }

  -- A reallocation keeps the elements.
  pub extend-Holds :
      (n larger : ℕ)
      → larger ≡ capacity + n
      → Holds size capacity slots xs
      → Holds size larger (slots ++ replicate n none) xs
  extend-Holds n larger e h = record {
    elements = written-append size slots (replicate n none) xs h.elements;
    allocated = omega (
      arith,
      length-append slots (replicate n none),
      length-replicate {A = Option A} n none,
      h.allocated,
    );
  }
