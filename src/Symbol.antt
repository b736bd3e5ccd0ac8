-- ===== src/Symbol.antt =====
-- src/compiler/symbol.c and symbol.h: the hash map of symbols, with linear probing and no
-- wrap-around, and the chain of scopes. A map's parent is the next map of a list. The capacity is
-- a power of two, so `& (capacity - 1)` is the remainder; the counts stay below 2 ^ 24, so the
-- `float` quotient of the growth test is exact.
pub mod Defined
pub mod Lookup
pub mod Growth
use nord.Prelude.{
  ℕ, zero, suc, ◌+◌, ◌-◌, ◌*◌, ◌%◌, Bool, true, false, Option, none, some, List, [], ◌∷◌, leb,
  if◌then◌else◌, length, get_elem?, set, replicate, drop, str_eq,
}
use nord.Prelude.Result.{Result, ok, fault, out_of_bounds, null_pointer, ◌>>=◌}
use nord.Hash.{pjw_hash}

pub data SymType : Type 0 where
  sym_none sym_var sym_constant sym_fn sym_module : SymType

pub data LocType : Type 0 where
  loc_undef loc_register loc_memory loc_code loc_builtin loc_none : LocType

pub record SymPointer : Type 0 where
  pub kind : LocType
  pub address : ℕ

abbrev pub Name : Type 0
Name = List ℕ

-- `name` is `NULL` in an entry that `calloc` zeroed.
pub record Symbol : Type 0 where
  pub name : Option Name
  pub type : SymType
  pub location : SymPointer

abbrev pub zeroed : Symbol
zeroed = record {
  name = none;
  type = sym_none;
  location = record { kind = loc_undef; address = 0 };
}

pub record SymbolMap : Type 0 where
  pub size : ℕ
  pub capacity : ℕ
  pub items : List Symbol

abbrev pub is_undef : LocType → Bool
is_undef loc_undef = true
is_undef _ = false

unfoldable pub symbol_map_create : SymbolMap
symbol_map_create = record { size = 0; capacity = 8; items = replicate 8 zeroed }

-- the slot of a name before any probing
unfoldable pub home : Name → ℕ → ℕ
home name capacity = pjw_hash name % capacity

-- One round of the rehashing loop: a collision overwrites.
abbrev pub reinsert : Option Name → Symbol → ℕ → List Symbol → List Symbol
reinsert none symbol capacity new_items = new_items
reinsert (some name) symbol capacity new_items = set new_items (home name capacity) symbol

unfoldable pub rehash : List Symbol → ℕ → List Symbol → List Symbol
rehash [] capacity new_items = new_items
rehash (symbol ∷ items) capacity new_items =
    rehash items capacity (reinsert symbol.name symbol capacity new_items)

-- the block under `(size + 1) / (float)capacity >= .5`
unfoldable pub grow : SymbolMap → SymbolMap
unfolding rehash
grow map =
    let new_capacity = map.capacity * 2 in
    record map {
      capacity = new_capacity;
      items = rehash map.items new_capacity (replicate new_capacity zeroed);
    }

unfoldable pub ensure_room : SymbolMap → SymbolMap
unfolding grow
ensure_room map = if leb map.capacity ((map.size + 1) * 2) then grow map else map

abbrev pub bump : Result ℕ → Result ℕ
bump r = r >>= λ i. ok (suc i)

-- The probing loop of `symbol_map_set` over the entries from the home slot on: how far it goes.
unfoldable pub probe : List Symbol → Name → Result ℕ
probe [] name = fault out_of_bounds
probe (symbol ∷ rest) name = elim symbol.name [
  | none ↦ ok 0
  | some other ↦ if str_eq name other then ok 0 else bump (probe rest name)
]

-- what follows the growth test: the home slot, the probing loop and the store
unfoldable pub place : SymbolMap → Name → Symbol → Result SymbolMap
place map name symbol =
    let index = home name map.capacity in
    probe (drop index map.items) name >>= λ i.
    ok (record map { items = set map.items (index + i) symbol; size = map.size + 1 })

unfoldable pub symbol_map_set : SymbolMap → Symbol → Result SymbolMap
symbol_map_set map symbol = elim symbol.name [
  | none ↦ fault null_pointer
  | some name ↦ place (ensure_room map) name symbol
]

-- The advancing loop of `symbol_map_get_local`.
unfoldable pub advance : List Symbol → Name → Result Symbol
advance [] name = fault out_of_bounds
advance (symbol ∷ rest) name = elim symbol.name [
  | none ↦ ok symbol
  | some other ↦ if str_eq name other then ok symbol else advance rest name
]

-- The entry at the home slot decides if it is undefined; otherwise the loop starts there.
abbrev pub local_from : List Symbol → Name → Result Symbol
local_from [] name = fault out_of_bounds
local_from (symbol ∷ rest) name =
    if is_undef symbol.location.kind then ok symbol else advance (symbol ∷ rest) name

unfoldable pub symbol_map_get_local : SymbolMap → Name → Result Symbol
unfolding advance
symbol_map_get_local map name = local_from (drop (home name map.capacity) map.items) name

-- The scopes from the innermost outwards.
unfoldable pub symbol_map_get : SymbolMap → List SymbolMap → Name → Result Symbol
unfolding symbol_map_get_local
symbol_map_get map [] name = symbol_map_get_local map name
symbol_map_get map (parent ∷ above) name =
    let outer = symbol_map_get parent above name in
    symbol_map_get_local map name >>= λ symbol.
    if is_undef symbol.location.kind then outer else ok symbol

-- The loop of `symbol_map_context`, with the symbol that was found last; `none` is `NULL`. It looks a
-- name up in a parent through all the scopes above it.
context_from : Symbol → SymbolMap → List SymbolMap → Name → Result (Option SymbolMap)
context_from symbol map [] name = if is_undef symbol.location.kind then ok none else ok (some map)
context_from symbol map (parent ∷ above) name =
    let next = symbol_map_get parent above name >>= λ found. context_from found parent above name in
    if is_undef symbol.location.kind then next else ok (some map)

unfoldable pub symbol_map_context : SymbolMap → List SymbolMap → Name → Result (Option SymbolMap)
unfolding context_from
symbol_map_context map above name =
    symbol_map_get_local map name >>= λ symbol. context_from symbol map above name
