-- ===== src/Compile/ModuleName.antt =====
-- src/lang/module.c: the name under which a module is imported.
use nord.Prelude.{
  ℕ, ◌≡◌, ◌≢◌, ap, Bool-cases, ◌==◌, ==→eq, ==→ne, if◌then◌else◌, inl, inr, Option, none, some,
  List, [], ◌∷◌, ◌++◌,
}
use nord.Compile.Control.{after_slash, symbol_name_for_module_path}

abbrev pub NoSlash : List ℕ → Type 0
NoSlash [] = Unit
NoSlash (c ∷ cs) = (c ≢ b'/') × NoSlash cs

-- What is behind the last slash of a path, if it has one.
pub data Behind (path : List ℕ) : Option (List ℕ) → Type 0 where
  nothing : NoSlash path → Behind path none
  component :
      (above name : List ℕ) → path ≡ above ++ b'/' ∷ name → NoSlash name → Behind path (some name)

-- a name for a path
pub data Names (path : List ℕ) : List ℕ → Type 0 where
  whole : NoSlash path → Names path path
  last : (above name : List ℕ) → path ≡ above ++ b'/' ∷ name → NoSlash name → Names path name

-- one more character in front
step-Behind :
    (c : ℕ) (cs : List ℕ) (found : Option (List ℕ))
    → Behind cs found
    → Behind
        (c ∷ cs)
        (elim found [ some rest ↦ some rest | none ↦ if c == b'/' then some cs else none ])
step-Behind c cs none (nothing h) = elim (Bool-cases (c == b'/')) [
  | inl e ↦ rw e (component [] cs (ap (λ d. d ∷ cs) (==→eq c b'/' e)) h)
  | inr e ↦ rw e (nothing (==→ne c b'/' e, h))
]
step-Behind c cs (some rest) (component above name p h) =
    component (c ∷ above) name (ap (λ ys. c ∷ ys) p) h

after_slash-Behind : (path : List ℕ) → Behind path (after_slash path)
after_slash-Behind [] = nothing tt
after_slash-Behind (c ∷ cs) = step-Behind c cs (after_slash cs) (after_slash-Behind cs)

-- The name of a module is what its path has behind the last slash, or the whole path where it has
-- no slash.
pub symbol_name_for_module_path-Names :
    (path : List ℕ) → Names path (symbol_name_for_module_path path)
unfolding symbol_name_for_module_path
symbol_name_for_module_path-Names path = named (after_slash path) (after_slash-Behind path)
  where
    named :
        (o : Option (List ℕ))
        → Behind path o
        → Names path (elim o [ none ↦ path | some rest ↦ rest ])
    named none (nothing h) = whole h
    named (some rest) (component above name p h) = last above name p h
