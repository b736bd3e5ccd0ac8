-- ===== src/Symbol/Lookup.antt =====
-- src/compiler/symbol.c: lookups after `symbol_map_set`.
use nord.Prelude.{
  ℕ, zero, suc, ◌+◌, ◌*◌, ◌<◌, ◌≡◌, ◌≢◌, refl, sym, ◌∙◌, false, none, some, List, [], ◌∷◌, ◌⊎◌, inl,
  inr, arith, Option-cases, get_elem?, set, drop, str_eq, str_eq_iff, str_eq_refl,
}
use nord.Prelude.Result.{Result, ok, fault, >>=-eq-ok}
use nord.Symbol.Defined.{AllDefined, drop-AllDefined, set-AllDefined, ensure_room-AllDefined}
use nord.Symbol.{
  Symbol, SymbolMap, Name, is_undef, home, ensure_room, probe, bump, place, symbol_map_set, advance,
  local_from, symbol_map_get_local,
}

drop-set :
    (h i : ℕ) (items : List Symbol) (s : Symbol)
    → drop h (set items (h + i) s) ≡ set (drop h items) i s
drop-set zero i items s = let e : 0 + i ≡ i = omega arith in rw e
drop-set (suc h) i [] s = refl
drop-set (suc h) i (x ∷ items) s =
    let e : suc h + i ≡ suc (h + i) = omega arith in rw e (drop-set h i items s)

bump-eq-suc : (r : Result ℕ) (i : ℕ) → bump r ≡ ok (suc i) → r ≡ ok i
bump-eq-suc (ok n) i h = ground arith
bump-eq-suc (fault e) i h = cc

probe-advance :
    (items : List Symbol) (name : Name) (s : Symbol) (i : ℕ)
    → s.name ≡ some name
    → probe items name ≡ ok i
    → advance (set items i s) name ≡ ok s
unfolding probe advance
probe-advance [] name s i e p = cc
probe-advance (x ∷ items) name s zero e p = ground (arith, str_eq_refl name)
probe-advance (x ∷ items) name s (suc i) e p =
    ground (arith, bump-eq-suc (probe items name) i, probe-advance items name s i e)

-- The entry that a lookup starts from does not stop it before the probed one.
probe-local_from :
    (items : List Symbol) (name : Name) (s : Symbol) (i : ℕ)
    → AllDefined items
    → s.name ≡ some name
    → is_undef s.location.kind ≡ false
    → probe items name ≡ ok i
    → local_from (set items i s) name ≡ ok s
unfolding probe
probe-local_from [] name s i h e d p = cc
probe-local_from (x ∷ items) name s zero h e d p =
    ground (arith, probe-advance (x ∷ items) name s zero e p)
probe-local_from (x ∷ items) name s (suc i) h e d p =
    ground (arith, probe-advance (x ∷ items) name s (suc i) e p)

-- An entry named `name` keeps what it had found under another name.
advance-set_other :
    (items : List Symbol) (j : ℕ) (name other : Name) (s x r : Symbol)
    → str_eq other name ≡ false
    → s.name ≡ some name
    → get_elem? items j ≡ some x
    → (x.name ≡ none) ⊎ (x.name ≡ some name)
    → r.name ≡ some other
    → advance items other ≡ ok r
    → advance (set items j s) other ≡ ok r
unfolding advance
advance-set_other [] j name other s x r ne e at free re p = cc
advance-set_other (y ∷ items) zero name other s x r ne e at free re p = ground arith
advance-set_other (y ∷ items) (suc j) name other s x r ne e at free re p =
    ground (arith, advance-set_other items j name other s x r ne e at free re)

-- The probing loop stops at a free entry or at one of the same name.
probe_stops :
    (items : List Symbol) (name : Name) (i : ℕ)
    → probe items name ≡ ok i
    → (x : Symbol) × (get_elem? items i ≡ some x) × ((x.name ≡ none) ⊎ (x.name ≡ some name))
unfolding probe
probe_stops [] name i p = cc
probe_stops (x ∷ items) name zero p = (
  x,
  refl,
  elim (Option-cases x.name) [
    | inl e ↦ inl e
    | inr (other, e) ↦ inr (ground (arith, str_eq_iff name other, probe items name))
  ],
)
probe_stops (x ∷ items) name (suc i) p =
    let later : probe items name ≡ ok i = ground (arith, bump-eq-suc (probe items name) i) in
    probe_stops items name i later

local_from-set_here :
    (items : List Symbol) (j : ℕ) (name other : Name) (s x r : Symbol)
    → str_eq other name ≡ false
    → s.name ≡ some name
    → is_undef s.location.kind ≡ false
    → get_elem? items j ≡ some x
    → (x.name ≡ none) ⊎ (x.name ≡ some name)
    → r.name ≡ some other
    → local_from items other ≡ ok r
    → local_from (set items j s) other ≡ ok r
local_from-set_here [] j name other s x r ne e d at free re p = cc
local_from-set_here (y ∷ items) zero name other s x r ne e d at free re p =
    ground
      (arith, str_eq_refl name, advance-set_other (y ∷ items) zero name other s x r ne e at free re)
local_from-set_here (y ∷ items) (suc j) name other s x r ne e d at free re p =
    ground (arith, advance-set_other (y ∷ items) (suc j) name other s x r ne e at free re)

local_from-set_other :
    (items : List Symbol) (k j : ℕ) (name other : Name) (s x r : Symbol)
    → str_eq other name ≡ false
    → s.name ≡ some name
    → is_undef s.location.kind ≡ false
    → get_elem? items j ≡ some x
    → (x.name ≡ none) ⊎ (x.name ≡ some name)
    → r.name ≡ some other
    → local_from (drop k items) other ≡ ok r
    → local_from (drop k (set items j s)) other ≡ ok r
local_from-set_other [] k j name other s x r ne e d at free re p = cc
local_from-set_other (y ∷ items) zero j name other s x r ne e d at free re p =
    local_from-set_here (y ∷ items) j name other s x r ne e d at free re p
local_from-set_other (y ∷ items) (suc k) zero name other s x r ne e d at free re p = p
local_from-set_other (y ∷ items) (suc k) (suc j) name other s x r ne e d at free re p =
    local_from-set_other items k j name other s x r ne e d at free re p

get_elem?-drop :
    (k i : ℕ) (items : List Symbol) → get_elem? (drop k items) i ≡ get_elem? items (k + i)
get_elem?-drop zero i items = let e : 0 + i ≡ i = omega arith in rw e
get_elem?-drop (suc k) i [] = refl
get_elem?-drop (suc k) i (x ∷ items) =
    let e : suc k + i ≡ suc (k + i) = omega arith in rw e (get_elem?-drop k i items)

-- What a successful `symbol_map_set` stored, and where its probing loop stopped.
placed :
    (map map' : SymbolMap) (symbol : Symbol) (name : Name)
    → place map name symbol ≡ ok map'
    → (i : ℕ) × (probe (drop (home name map.capacity) map.items) name ≡ ok i)
      × (map' ≡ record map {
        items = set map.items (home name map.capacity + i) symbol;
        size = map.size + 1;
      })
unfolding place
placed map map' symbol name p =
    let (i, probed, stored) =
      >>=-eq-ok (probe (drop (home name map.capacity) map.items) name) _ p in
    (i, probed, ground arith)

set-place :
    (map : SymbolMap) (symbol : Symbol) (name : Name)
    → symbol.name ≡ some name
    → symbol_map_set map symbol ≡ place (ensure_room map) name symbol
unfolding symbol_map_set
set-place map symbol name e = ground arith

-- After a set, the name is found with the symbol that was set, whether the map grew or not.
pub get_local-set :
    (map map' : SymbolMap) (symbol : Symbol) (name : Name)
    → symbol.name ≡ some name
    → is_undef symbol.location.kind ≡ false
    → AllDefined map.items
    → symbol_map_set map symbol ≡ ok map'
    → symbol_map_get_local map' name ≡ ok symbol
unfolding symbol_map_get_local
get_local-set map map' symbol name e d h p =
    let m = ensure_room map in
    let (i, probed, result) = placed m map' symbol name (sym (set-place map symbol name e) ∙ p) in
    rw (result, drop-set (home name m.capacity) i m.items symbol)
      (probe-local_from (drop (home name m.capacity) m.items) name symbol i
        (drop-AllDefined (home name m.capacity) m.items (ensure_room-AllDefined map h)) e d probed)

roomy : (map : SymbolMap) → (map.size + 1) * 2 < map.capacity → ensure_room map ≡ map
unfolding ensure_room
roomy map h = ground arith

-- The precondition of `get_local-set` is an invariant of the map.
pub symbol_map_set-AllDefined :
    (map map' : SymbolMap) (symbol : Symbol) (name : Name)
    → symbol.name ≡ some name
    → is_undef symbol.location.kind ≡ false
    → AllDefined map.items
    → symbol_map_set map symbol ≡ ok map'
    → AllDefined map'.items
symbol_map_set-AllDefined map map' symbol name e d h p =
    let m = ensure_room map in
    let (i, probed, result) = placed m map' symbol name (sym (set-place map symbol name e) ∙ p) in
    rw result (
      set-AllDefined m.items (home name m.capacity + i) symbol (inr d)
        (ensure_room-AllDefined map h))

-- A set, of a symbol with a name and a location, that succeeds while the map does not grow leaves
-- every entry that was found under another name found as before.
pub get_local-set_other :
    (map map' : SymbolMap) (symbol found : Symbol) (name other : Name)
    → symbol.name ≡ some name
    → is_undef symbol.location.kind ≡ false
    → other ≢ name
    → (map.size + 1) * 2 < map.capacity
    → symbol_map_set map symbol ≡ ok map'
    → found.name ≡ some other
    → symbol_map_get_local map other ≡ ok found
    → symbol_map_get_local map' other ≡ ok found
unfolding symbol_map_get_local
get_local-set_other map map' symbol found name other e d ne room p f q =
    let same = set-place map symbol name e ∙ rw (roomy map room) in
    let (i, probed, result) = placed map map' symbol name (sym same ∙ p) in
    let (x, at, free) = probe_stops (drop (home name map.capacity) map.items) name i probed in
    rw result (
      local_from-set_other map.items (home other map.capacity) (home name map.capacity + i) name
        other symbol x found (ground (arith, str_eq_iff other name)) e d
        (sym (get_elem?-drop (home name map.capacity) i map.items) ∙ at) free f q)
