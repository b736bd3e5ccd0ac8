-- ===== src/Symbol/Growth.antt =====
-- src/compiler/symbol.c: what `symbol_map_set` keeps when it grows a map.
use nord.Prelude.{
  ℕ, ◌*◌, ◌<◌, ◌≡◌, ◌≢◌, refl, sym, ap, ◌∙◌, Bool, true, false, Option, none, some, List, [], ◌∷◌,
  ◌++◌, inl, inr, arith, ◌==◌, if◌then◌else◌, Bool-cases, ==→eq, ==→ne, eq→==, length, get_or,
  replicate, length-set, length-replicate, get_or-set, get_or-replicate,
}
use mathlib.Core.Option.{some-injective}
use nord.Symbol.{Symbol, SymbolMap, Name, zeroed, reinsert, home, rehash, grow}

-- The specification of one slot: the last entry whose name belongs there.
abbrev pub belongs : Option Name → ℕ → ℕ → Bool
belongs none capacity slot = false
belongs (some name) capacity slot = slot == home name capacity

abbrev pub last_at : List Symbol → ℕ → ℕ → Symbol → Symbol
last_at [] capacity slot d = d
last_at (s ∷ items) capacity slot d =
    last_at items capacity slot (if belongs s.name capacity slot then s else d)

home-lt : (name : Name) (capacity : ℕ) → 0 < capacity → home name capacity < capacity
unfolding home
home-lt name capacity h = omega arith

get_or-reinsert :
    (o : Option Name) (s : Symbol) (capacity slot : ℕ) (new : List Symbol)
    → length new ≡ capacity
    → 0 < capacity
    → get_or (reinsert o s capacity new) slot zeroed
      ≡ (if belongs o capacity slot then s else get_or new slot zeroed)
get_or-reinsert none s capacity slot new e h = refl
get_or-reinsert (some name) s capacity slot new e h =
    get_or-set new (home name capacity) slot s zeroed (omega (arith, home-lt name capacity h))

length-reinsert :
    (o : Option Name) (s : Symbol) (capacity : ℕ) (new : List Symbol)
    → length (reinsert o s capacity new) ≡ length new
length-reinsert none s capacity new = refl
length-reinsert (some name) s capacity new = length-set new (home name capacity) s

rehash-last_at :
    (items : List Symbol) (capacity slot : ℕ) (new : List Symbol)
    → length new ≡ capacity
    → 0 < capacity
    → get_or (rehash items capacity new) slot zeroed
      ≡ last_at items capacity slot (get_or new slot zeroed)
unfolding rehash
rehash-last_at [] capacity slot new e h = refl
rehash-last_at (s ∷ items) capacity slot new e h =
    rehash-last_at items capacity slot (reinsert s.name s capacity new)
      (length-reinsert s.name s capacity new ∙ e) h
    ∙ ap (last_at items capacity slot) (get_or-reinsert s.name s capacity slot new e h)

-- After growth each slot holds the last of the old entries whose name hashes to it, and nothing
-- else: there is no probing on the way.
pub grow-last_at :
    (map : SymbolMap) (slot : ℕ)
    → 0 < map.capacity
    → get_or (grow map).items slot zeroed ≡ last_at map.items (map.capacity * 2) slot zeroed
unfolding grow
grow-last_at map slot h =
    rehash-last_at map.items (map.capacity * 2) slot (replicate (map.capacity * 2) zeroed)
      (length-replicate (map.capacity * 2) zeroed) (omega arith)
    ∙ rw get_or-replicate

-- No entry has this name.
abbrev pub Lacks : Name → List Symbol → Type 0
Lacks name [] = Unit
Lacks name (s ∷ items) = (s.name ≢ some name) × Lacks name items

pick-ne :
    (b : Bool) (s d : Symbol) (name : Name)
    → (b ≡ true → s.name ≢ some name)
    → d.name ≢ some name
    → (if b then s else d).name ≢ some name
pick-ne true s d name h k = h refl
pick-ne false s d name h k = k

last_at-Lacks :
    (items : List Symbol) (capacity slot : ℕ) (name : Name) (d : Symbol)
    → Lacks name items
    → d.name ≢ some name
    → (last_at items capacity slot d).name ≢ some name
last_at-Lacks [] capacity slot name d l h = h
last_at-Lacks (s ∷ items) capacity slot name d l h =
    last_at-Lacks items capacity slot name _ l.1
      (pick-ne (belongs s.name capacity slot) s d name (λ b. l.0) h)

belongs-home :
    (o : Option Name) (capacity slot : ℕ) (name : Name)
    → belongs o capacity slot ≡ true
    → o ≡ some name
    → slot ≡ home name capacity
belongs-home none capacity slot name b e = cc
belongs-home (some other) capacity slot name b e =
    ==→eq slot (home other capacity) b ∙ ap (λ n. home n capacity) (some-injective other name e)

-- An entry that belongs to another slot leaves no trace of its name in this one.
last_at_elsewhere :
    (items : List Symbol) (capacity slot : ℕ) (name : Name) (d : Symbol)
    → slot ≢ home name capacity
    → d.name ≢ some name
    → (last_at items capacity slot d).name ≢ some name
last_at_elsewhere [] capacity slot name d away h = h
last_at_elsewhere (s ∷ items) capacity slot name d away h =
    last_at_elsewhere items capacity slot name _ away (
      pick-ne (belongs s.name capacity slot) s d name
        (λ b e. away (belongs-home s.name capacity slot name b e)) h)

last_at-append :
    (before after : List Symbol) (capacity slot : ℕ) (d : Symbol)
    → last_at (before ++ after) capacity slot d
      ≡ last_at after capacity slot (last_at before capacity slot d)
last_at-append [] after capacity slot d = refl
last_at-append (s ∷ before) after capacity slot d = last_at-append before after capacity slot _

home-belongs :
    (o : Option Name) (capacity slot : ℕ) (name : Name)
    → o ≡ some name
    → slot ≡ home name capacity
    → belongs o capacity slot ≡ true
home-belongs none capacity slot name e h = cc
home-belongs (some other) capacity slot name e h =
    eq→== slot (home other capacity)
      (h ∙ ap (λ n. home n capacity) (sym (some-injective other name e)))

-- Growth loses a symbol whose name hashes, in the doubled map, to the slot of a later entry of
-- another name: no slot of the new map has its name, wherever the old map held it.
pub grow_forgets :
    (map : SymbolMap) (before after : List Symbol) (later : Symbol) (name name' : Name)
    → 0 < map.capacity
    → map.items ≡ before ++ later ∷ after
    → later.name ≡ some name'
    → home name' (map.capacity * 2) ≡ home name (map.capacity * 2)
    → name' ≢ name
    → Lacks name after
    → (slot : ℕ) → (get_or (grow map).items slot zeroed).name ≢ some name
grow_forgets map before after later name name' pos split e same ne lacks slot =
    elim (Bool-cases (slot == home name (map.capacity * 2))) [
      | inl here ↦
          let wide = map.capacity * 2 in
          let meets = home-belongs later.name wide slot name' e (==→eq slot _ here ∙ sym same) in
          let kept =
            if belongs later.name wide slot then later else last_at before wide slot zeroed in
          let other : kept.name ≢ some name =
            rw meets (λ f. ne (some-injective name' name (sym e ∙ f))) in
          rw (grow-last_at map slot pos, split, last_at-append)
            (last_at-Lacks after wide slot name kept lacks other)
      | inr away ↦
          rw (grow-last_at map slot pos)
            (last_at_elsewhere map.items _ slot name zeroed (==→ne slot _ away) (λ f. cc))
    ]
