-- ===== src/Symbol/Defined.antt =====
-- src/compiler/symbol.c: every named entry of a map has a location.
use nord.Prelude.{
  ℕ, zero, suc, ◌+◌, ◌*◌, ◌≡◌, refl, false, Option, none, some, List, [], ◌∷◌, ◌⊎◌, inl, inr, leb,
  Bool-cases, set, drop, replicate,
}
use nord.Symbol.{Symbol, SymbolMap, Name, is_undef, zeroed, reinsert, rehash, ensure_room}

-- Whatever is stored under a name has a location.
abbrev pub AllDefined : List Symbol → Type 0
AllDefined [] = Unit
AllDefined (s ∷ rest) = ((s.name ≡ none) ⊎ (is_undef s.location.kind ≡ false)) × AllDefined rest

pub drop-AllDefined : (k : ℕ) (items : List Symbol) → AllDefined items → AllDefined (drop k items)
drop-AllDefined zero items h = h
drop-AllDefined (suc k) [] h = h
drop-AllDefined (suc k) (s ∷ items) h = drop-AllDefined k items h.1

pub set-AllDefined :
    (items : List Symbol) (i : ℕ) (s : Symbol)
    → (s.name ≡ none) ⊎ (is_undef s.location.kind ≡ false)
    → AllDefined items
    → AllDefined (set items i s)
set-AllDefined [] i s d h = h
set-AllDefined (x ∷ items) zero s d h = (d, h.1)
set-AllDefined (x ∷ items) (suc i) s d h = (h.0, set-AllDefined items i s d h.1)

pub replicate-AllDefined : (n : ℕ) → AllDefined (replicate n zeroed)
replicate-AllDefined zero = tt
replicate-AllDefined (suc n) = (inl refl, replicate-AllDefined n)

reinsert-AllDefined :
    (o : Option Name) (s : Symbol) (capacity : ℕ) (new : List Symbol)
    → (s.name ≡ none) ⊎ (is_undef s.location.kind ≡ false)
    → AllDefined new
    → AllDefined (reinsert o s capacity new)
reinsert-AllDefined none s capacity new d h = h
reinsert-AllDefined (some name) s capacity new d h = set-AllDefined new _ s d h

rehash-AllDefined :
    (items : List Symbol) (capacity : ℕ) (new : List Symbol)
    → AllDefined items
    → AllDefined new
    → AllDefined (rehash items capacity new)
unfolding rehash
rehash-AllDefined [] capacity new d h = h
rehash-AllDefined (s ∷ items) capacity new d h =
    rehash-AllDefined items capacity (reinsert s.name s capacity new) d.1
      (reinsert-AllDefined s.name s capacity new d.0 h)

-- The growth check keeps it.
pub ensure_room-AllDefined :
    (map : SymbolMap) → AllDefined map.items → AllDefined (ensure_room map).items
unfolding ensure_room
ensure_room-AllDefined map h = elim (Bool-cases (leb map.capacity ((map.size + 1) * 2))) [
  | inl full ↦
      rw full (
        rehash-AllDefined map.items (map.capacity * 2) _ h
          (replicate-AllDefined (map.capacity * 2)))
  | inr spare ↦ rw spare h
]
