-- ===== src/Parser/Tree.antt =====
-- src/compiler/parse.c: the shape of the trees that the parser builds, as a grammar with levels.
use nord.Prelude.{
  sym, ℕ, ◌+◌, ◌≤◌, ◌<◌, ◌≡◌, refl, Bool, true, false, Option, some, List, [], ◌∷◌, arith, ◌==◌,
  if◌then◌else◌,
}
use mathlib.Core.Path.{subst}
use nord.Prelude.Result.{Result, ok, fault, ◌>>=◌}
use nord.Prelude.Holds.{Holds, value, none_left}
use nord.Token.{Token, TokenType, has_type}
use nord.Lexer.{any_type}
use nord.Syntax.{
  Ast, Asts, Location, null, node, nil, cons, assign, binary, declare, unary, literal, group,
  stmt_list, function_decl, function_call, expr_list, module_, if_stmt, for_stmt, tuple, range,
  size, snoc, append_items, is_null,
}

-- The binary operators of a level. A higher level binds tighter.
abbrev pub comparisons : List TokenType
comparisons =
    TokenType.greater ∷ TokenType.greater_equal ∷ TokenType.less ∷ TokenType.less_equal ∷ []

unfoldable pub operators_at : ℕ → List TokenType
operators_at n =
    if n == 2
    then TokenType.and_ ∷ TokenType.or_ ∷ []
    else if n == 3
    then TokenType.bang_equal ∷ TokenType.equal_equal ∷ []
    else if n == 4
    then comparisons
    else if n == 5
    then TokenType.minus ∷ TokenType.plus ∷ TokenType.modulo ∷ []
    else if n == 6
    then TokenType.slash ∷ TokenType.asterisk ∷ []
    else []

abbrev pub signs : List TokenType
signs = TokenType.bang ∷ TokenType.minus ∷ []

-- A tree that may stand where level `n` is called for: 0 is a statement, 1 an expression, 2 to 6
-- are the binary operators, 7 a sign, 8 a primary, 9 what may follow a dot. The left side of a
-- binary operator is of its own level, the right side of the next one.
mutual
  pub data Formed : ℕ → Ast → Type 0 where
    declaration :
        {n : ℕ} {l : Location} {t : Token} {name : List ℕ} {value : Ast}
        → n ≤ 0
        → OrNull 1 value
        → Formed n (node l (declare t name value))
    returned :
        {n : ℕ} {l : Location} {t : Token} {value : Ast}
        → n ≤ 0
        → has_type TokenType.return t ≡ true
        → OrNull 0 value
        → Formed n (node l (unary t value))
    imported : {n : ℕ} {l : Location} {name : List ℕ} → n ≤ 0 → Formed n (node l (module_ name))
    conditional :
        {n : ℕ} {l : Location} {condition body : Ast}
        → n ≤ 0
        → Formed 1 condition
        → Body body
        → Formed n (node l (if_stmt condition body))
    loop :
        {n : ℕ} {l : Location} {var : Option (List ℕ)} {iterable body : Ast}
        → n ≤ 0
        → Formed 8 iterable
        → Block body
        → Formed n (node l (for_stmt var iterable body))
    function :
        {n : ℕ} {l : Location} {name : List ℕ} {exported : Bool} {args body : Ast}
        → n ≤ 1
        → Arguments args
        → Block body
        → Formed n (node l (function_decl name exported args body))
    assigned :
        {n : ℕ} {l : Location} {name : List ℕ} {value : Ast}
        → n ≤ 1
        → OrNull 1 value
        → Formed n (node l (assign name value))
    operation :
        {n m : ℕ} {l : Location} {operator : Token} {left right : Ast}
        → n ≤ m
        → any_type (operators_at m) operator ≡ true
        → Formed m left
        → Formed (m + 1) right
        → Formed n (node l (binary operator left right))
    signed :
        {n : ℕ} {l : Location} {operator : Token} {operand : Ast}
        → n ≤ 7
        → any_type signs operator ≡ true
        → Formed 7 operand
        → Formed n (node l (unary operator operand))
    constant :
        {n : ℕ} {l : Location} {t : Token} {value : List ℕ}
        → n ≤ 8
        → Formed n (node l (literal t (some value)))
    grouped : {n : ℕ} {l : Location} {t : Ast} → n ≤ 8 → Formed 1 t → Formed n (node l (group t))
    listed :
        {n : ℕ} {l : Location} {capacity : ℕ} {items : Asts}
        → n ≤ 8
        → 1 < size items
        → size items ≤ capacity
        → All 1 items
        → Formed n (node l (tuple capacity items))
    interval :
        {n : ℕ} {l k k' : Location} {t u : Token} {begin end : List ℕ}
        → n ≤ 8
        → Formed n
            (node l (range (node k (literal t (some begin))) (node k' (literal u (some end)))))
    called :
        {n : ℕ} {l : Location} {name : List ℕ} {args : Ast}
        → n ≤ 9
        → Arguments args
        → Formed n (node l (function_call name args))
    member :
        {n : ℕ} {l k : Location} {operator t : Token} {value : List ℕ} {right : Ast}
        → n ≤ 9
        → has_type TokenType.dot operator ≡ true
        → OrNull 9 right
        → Formed n (node l (binary operator (node k (literal t (some value))) right))

  pub data OrNull : ℕ → Ast → Type 0 where
    nothing : {n : ℕ} → OrNull n null
    found : {n : ℕ} {t : Ast} → Formed n t → OrNull n t

  -- Expressions, one at least, in a list that has room for them.
  pub data Arguments : Ast → Type 0 where
    none_given : Arguments null
    given :
        {l : Location} {capacity : ℕ} {items : Asts}
        → 0 < size items
        → size items ≤ capacity
        → All 1 items
        → Arguments (node l (expr_list capacity items))

  -- a single statement, or statements in braces
  pub data Body : Ast → Type 0 where
    single : {t : Ast} → Formed 0 t → Body t
    braces : {t : Ast} → Block t → Body t

  pub data Block : Ast → Type 0 where
    block :
        {l : Location} {capacity : ℕ} {items : Asts}
        → size items ≤ capacity
        → All 0 items
        → Block (node l (stmt_list capacity items))

  pub data All : ℕ → Asts → Type 0 where
    empty : {n : ℕ} → All n nil
    one_more : {n : ℕ} {t : Ast} {ts : Asts} → Formed n t → All n ts → All n (cons t ts)

-- A tree of a level may stand where a lower one is called for.
pub lower : {n m : ℕ} {t : Ast} → m ≤ n → Formed n t → Formed m t
lower h (declaration k a) = declaration (omega arith) a
lower h (returned k e a) = returned (omega arith) e a
lower h (imported k) = imported (omega arith)
lower h (conditional k a b) = conditional (omega arith) a b
lower h (loop k a b) = loop (omega arith) a b
lower h (function k a b) = function (omega arith) a b
lower h (assigned k a) = assigned (omega arith) a
lower h (operation k e a b) = operation (omega arith) e a b
lower h (signed k e a) = signed (omega arith) e a
lower h (constant k) = constant (omega arith)
lower h (grouped k a) = grouped (omega arith) a
lower h (listed k a b c) = listed (omega arith) a b c
lower h (interval k) = interval (omega arith)
lower h (called k a) = called (omega arith) a
lower h (member k e a) = member (omega arith) e a

pub lower_or : {n m : ℕ} {t : Ast} → m ≤ n → OrNull n t → OrNull m t
lower_or h nothing = nothing
lower_or h (found f) = found (lower h f)

pub present : {n : ℕ} {t : Ast} → OrNull n t → is_null t ≡ false → Formed n t
present nothing h = cc
present (found f) h = f

pub snoc-All : {n : ℕ} {t : Ast} (ts : Asts) → All n ts → Formed n t → All n (snoc ts t)
snoc-All nil empty f = one_more f empty
snoc-All (cons u us) (one_more g a) f = one_more g (snoc-All us a f)

pub size-snoc : (ts : Asts) (t : Ast) → size (snoc ts t) ≡ size ts + 1
unfolding size
size-snoc nil t = refl
size-snoc (cons u us) t = omega (arith, size-snoc us t)

-- An append puts the item last, in an array that has room for it.
pub append_items_lem :
    (capacity : ℕ) (items : Asts) (item : Ast) (r : ℕ × Asts)
    → append_items capacity items item ≡ ok r
    → (r.1 ≡ snoc items item) × (size r.1 ≤ r.0)
unfolding append_items
append_items_lem capacity items item r h = ground (arith, size-snoc items item)

-- An append to a list that has room: what it leaves.
pub append-Holds :
    {P : Ast → Type 0} (capacity : ℕ) (items : Asts) (item : Ast) (f : ℕ × Asts → Ast)
    → ((capacity' : ℕ) → size (snoc items item) ≤ capacity' → P (f (capacity', snoc items item)))
    → Holds P (append_items capacity items item >>= λ r. ok (f r))
append-Holds {P = P} capacity items item f h = at (append_items capacity items item) refl
  where
    at :
        (r : Result (ℕ × Asts))
        → append_items capacity items item ≡ r
        → Holds P (r >>= λ r. ok (f r))
    at (fault why) e = none_left
    at (ok (k, ts)) e =
        let (same, room) = append_items_lem capacity items item (k, ts) e in
        value (subst (λ us. P (f (k, us))) (sym same) (h k (rw (← same) room)))
