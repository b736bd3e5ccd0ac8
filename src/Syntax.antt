-- ===== src/Syntax.antt =====
-- src/compiler/parse.h and the constructors of src/compiler/parse.c: the syntax tree.
use nord.Prelude.{
  ℕ, ◌+◌, ◌-◌, ◌*◌, ◌%◌, ◌^◌, Bool, true, false, Option, none, List, ltb, leb, if◌then◌else◌,
}
use nord.Prelude.Result.{Result, ok, fault, out_of_bounds, indeterminate, null_pointer, ◌>>=◌}
use nord.Token.{Token}

-- `location_t`. A number that no statement stored is `none`.
pub record Location : Type 0 where
  pub start : Option ℕ
  pub end : Option ℕ

-- The location of a node that `malloc` returned.
abbrev pub unset : Location
unset = record { start = none; end = none }

-- An `Ast` is an `ast_t *`, null or a node; the constructors of `Node` are the kinds of the union.
-- A list has its capacity and the items that were stored.
mutual
  pub data Ast : Type 0 where
    null : Ast
    node : Location → Node → Ast

  pub data Asts : Type 0 where
    nil : Asts
    cons : Ast → Asts → Asts

  pub data Node : Type 0 where
    assign : (name : List ℕ) (value : Ast) → Node
    binary : (operator : Token) (left right : Ast) → Node
    declare : (var_type : Token) (name : List ℕ) (initial_value : Ast) → Node
    unary : (operator : Token) (operand : Ast) → Node
    literal : (token : Token) (value : Option (List ℕ)) → Node
    group : Ast → Node
    stmt_list : (capacity : ℕ) (items : Asts) → Node
    function_decl : (name : List ℕ) (exported : Bool) (args body : Ast) → Node
    function_call : (name : List ℕ) (args : Ast) → Node
    expr_list : (capacity : ℕ) (items : Asts) → Node
    var_list : (capacity : ℕ) (items : Asts) → Node
    module_ : (name : List ℕ) → Node
    if_stmt : (condition body : Ast) → Node
    for_stmt : (var : Option (List ℕ)) (iterable body : Ast) → Node
    tuple : (capacity : ℕ) (items : Asts) → Node
    range : (begin end : Ast) → Node

-- `size` of a list
unfoldable pub size : Asts → ℕ
size nil = 0
size (cons t ts) = size ts + 1

abbrev pub snoc : Asts → Ast → Asts
snoc nil item = cons item nil
snoc (cons t ts) item = cons t (snoc ts item)

abbrev pub make_assign_expr : List ℕ → Ast → Ast
make_assign_expr name value = node unset (assign name value)

abbrev pub make_binary_expr : Ast → Token → Ast → Ast
make_binary_expr left operator right = node unset (binary operator left right)

abbrev pub make_declare_expr : Token → List ℕ → Ast → Ast
make_declare_expr var_type name initial_value = node unset (declare var_type name initial_value)

abbrev pub make_unary_expr : Token → Ast → Ast
make_unary_expr operator operand = node unset (unary operator operand)

-- The value of the literal is not stored.
abbrev pub make_literal_expr : Token → Ast
make_literal_expr token = node unset (literal token none)

abbrev pub make_group_expr : Ast → Ast
make_group_expr expr = node unset (group expr)

abbrev pub make_fn_expr : List ℕ → Bool → Ast → Ast → Ast
make_fn_expr name exported args body = node unset (function_decl name exported args body)

abbrev pub make_call_expr : List ℕ → Ast → Ast
make_call_expr name args = node unset (function_call name args)

abbrev pub make_list_expr : ℕ → Ast
make_list_expr capacity = node unset (stmt_list capacity nil)

abbrev pub make_if_expr : Ast → Ast → Ast
make_if_expr condition body = node unset (if_stmt condition body)

abbrev pub make_for_expr : Option (List ℕ) → Ast → Ast → Ast
make_for_expr var iterable body = node unset (for_stmt var iterable body)

abbrev pub make_range_expr : Ast → Ast → Ast
make_range_expr begin end = node unset (range begin end)

abbrev pub make_module_expr : List ℕ → Ast
make_module_expr name = node unset (module_ name)

-- `capacity - 1` of a `size_t`
abbrev pub limit_of : ℕ → ℕ
limit_of capacity = (capacity + (2 ^ 64 - 1)) % 2 ^ 64

-- The capacity that `list_expr_append` leaves, and the items with the new one; the array has room
-- for `capacity` of them.
unfoldable pub append_items : ℕ → Asts → Ast → Result (ℕ × Asts)
unfolding size
append_items capacity items item =
    let capacity' =
      if leb (limit_of capacity) (size items) then capacity * 2 % 2 ^ 64 else capacity in
    if ltb (size items) capacity' then ok (capacity', snoc items item) else fault out_of_bounds

-- `list_expr_append`, which does not look at the kind of the list. The union of another kind of
-- node has no list.
unfoldable pub list_expr_append : Ast → Ast → Result Ast
unfolding append_items
list_expr_append null item = fault null_pointer
list_expr_append (node l (stmt_list capacity items)) item =
    append_items capacity items item >>= λ r. ok (node l (stmt_list r.0 r.1))
list_expr_append (node l (expr_list capacity items)) item =
    append_items capacity items item >>= λ r. ok (node l (expr_list r.0 r.1))
list_expr_append (node l (var_list capacity items)) item =
    append_items capacity items item >>= λ r. ok (node l (var_list r.0 r.1))
list_expr_append (node l (tuple capacity items)) item =
    append_items capacity items item >>= λ r. ok (node l (tuple r.0 r.1))
list_expr_append (node l n) item = fault indeterminate

-- `ast->location`
abbrev pub location_of : Ast → Result Location
location_of null = fault null_pointer
location_of (node l n) = ok l

-- the stores to both ends of `ast->location`
abbrev pub locate : Location → Ast → Ast
locate l null = null
locate l (node k n) = node l n

abbrev pub is_null : Ast → Bool
is_null null = true
is_null (node l n) = false
