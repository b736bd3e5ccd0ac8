-- ===== src/Value.antt =====
-- src/machine/value.c and value.h: the values of the language. Texts and tuples are never changed
-- once they are built, so they are values here; an iterator is changed in place through every
-- reference to it, so it is the address of a cell of the machine's heap. The type of `float`
-- values is a parameter.
use nord.Prelude.{
  ℕ, Bool, true, false, ◌||◌, Option, none, some, List, [], ◌∷◌, ◌==◌, if◌then◌else◌,
}

pub data ValueType : Type 0 where
  val_absent val_unknown val_nil val_int val_string val_float val_boolean : ValueType
  val_tuple val_iterator val_function val_module : ValueType

-- the position in the enumeration
abbrev pub type_number : ValueType → ℕ
type_number val_absent = 0
type_number val_unknown = 1
type_number val_nil = 2
type_number val_int = 3
type_number val_string = 4
type_number val_float = 5
type_number val_boolean = 6
type_number val_tuple = 7
type_number val_iterator = 8
type_number val_function = 9
type_number val_module = 10

unfoldable pub same_type : ValueType → ValueType → Bool
same_type a b = type_number a == type_number b

pub record Address : Type 0 where
  pub region : ℕ
  pub offset : ℕ

-- A `function_t` as the compiler stores it. `locals` is `NULL`, or registers up to a 0.
pub record FunctionDef : Type 0 where
  pub name : List ℕ
  pub address : Address
  pub nargs : ℕ
  pub locals : Option (List ℕ)
  pub low_reg : ℕ

-- `indeterminate` is a cell that was never written, its type included. Of the word that holds a
-- truth value only the lowest byte is written by most instructions: the second argument of
-- `boolean` says whether the whole word is known, so that it may be read as a number.
mutual
  pub data Value (R : Type 0) : Type 0 where
    absent unknown nil indeterminate : Value R
    int : ℕ → Value R
    str : List ℕ → Value R
    real : R → Value R
    boolean : Bool → Bool → Value R
    tuple : Values R → Value R
    iterator : ℕ → Value R
    function : FunctionDef → Value R
    module_ : ℕ → Value R

  pub data Values (R : Type 0) : Type 0 where
    end : Values R
    item : Value R → Values R → Values R

module _ {R : Type 0} where
  -- The elements of a tuple in order.
  abbrev pub of_list : List (Value R) → Values R
  of_list [] = end
  of_list (v ∷ vs) = item v (of_list vs)

  abbrev pub to_list : Values R → List (Value R)
  to_list end = []
  to_list (item v vs) = v ∷ to_list vs

  unfoldable pub is_collection : Value R → Bool
  is_collection (str s) = true
  is_collection (tuple vs) = true
  is_collection _ = false

  -- `none` for a cell with no type.
  abbrev pub type_of : Value R → Option ValueType
  type_of absent = some val_absent
  type_of unknown = some val_unknown
  type_of nil = some val_nil
  type_of indeterminate = none
  type_of (int n) = some val_int
  type_of (str s) = some val_string
  type_of (real x) = some val_float
  type_of (boolean b w) = some val_boolean
  type_of (tuple vs) = some val_tuple
  type_of (iterator i) = some val_iterator
  type_of (function f) = some val_function
  type_of (module_ m) = some val_module

  unfoldable pub value_from_int : ℕ → Value R
  value_from_int x = int x

  unfoldable pub string_create : List ℕ → Value R
  string_create string = str string

  unfoldable pub function_def_create : List ℕ → Address → ℕ → Option (List ℕ) → ℕ → Value R
  function_def_create name address nargs locals low =
      function
        (record { name = name; address = address; nargs = nargs; locals = locals; low_reg = low })

  unfoldable pub module_create : ℕ → Value R
  module_create vm = module_ vm

-- The type of an arithmetic expression, from those of its operands.
unfoldable pub arithmetic_cast : ValueType → ValueType → ValueType
unfolding same_type
arithmetic_cast first second =
    if same_type first val_unknown || same_type second val_unknown
    then val_unknown
    else if same_type first second
    then first
    else if same_type first val_float || same_type second val_float
    then val_float
    else if same_type first val_string || same_type second val_string
    then val_string
    else val_unknown

-- `iterator_t`
pub record Iterator (R : Type 0) : Type 0 where
  pub index : ℕ
  pub length : ℕ
  pub iterable : Value R
