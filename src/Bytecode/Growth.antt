-- ===== src/Bytecode/Growth.antt =====
-- src/machine/bytecode.c: a code block is a list of instructions under `write` and `merge`, and a
-- collection is a list of blocks.
use nord.Prelude.{
  ℕ, zero, suc, ◌+◌, ◌-◌, ◌*◌, ◌≤◌, ◌<◌, ◌≡◌, refl, ap, true, false, Option, some, List, [], ◌∷◌,
  ◌++◌, ◌⊎◌, inl, inr, arith, ltb, leb, ◌==◌, Bool-cases, lt→ltb, ltb→lt, get_elem?-lt, ==→eq,
  ==→ne, length, get_elem?, set, drop,
}
use mathlib.Core.List.{append_assoc, append-nil}
use mathlib.Core.Option.{some-injective}
use native.Mathlib.Numerals.{add-one}
use nord.Prelude.Result.{ok}
use nord.Prelude.Slots.{Holds, set-Holds, extend-Holds, written, get_elem?-written, length-written}
use nord.Bytecode.{
  CodeBlock, code_block_create, allocate_block, grow_block, store_block, code_block_write,
  merge_from, code_block_merge, slot,
}

leb-ltb : (c n : ℕ) → leb (c - 1) n ≡ false → ltb n (c - 1) ≡ true
leb-ltb c n h = ground arith

module _ {ℓ} {A : Type ℓ} where
  drop_all : (ys : List A) (i : ℕ) → length ys ≤ i → drop i ys ≡ []
  drop_all [] zero h = refl
  drop_all [] (suc i) h = refl
  drop_all (y ∷ ys) zero h = absurd (omega arith)
  drop_all (y ∷ ys) (suc i) h = drop_all ys i (omega arith)

  drop_next :
      (ys : List A) (i : ℕ) (y : A) → get_elem? ys i ≡ some y → drop i ys ≡ y ∷ drop (i + 1) ys
  drop_next [] i y h = cc
  drop_next (x ∷ ys) zero y h = ap (λ t. t ∷ ys) (some-injective x y h)
  drop_next (x ∷ ys) (suc i) y h = rw (add-one) (rw (add-one) at (drop_next ys i y h))

  -- The block stores exactly the instructions `xs`; unless it is new, its last slot is free.
  pub record IsBlock (block : CodeBlock A) (xs : List A) : Type ℓ where
    pub holds : Holds block.size block.capacity block.code xs
    pub spare : (block.size < block.capacity) ⊎ ((block.size ≡ 0) × (block.capacity ≡ 0))

  pub code_block_create-IsBlock : IsBlock code_block_create []
  unfolding code_block_create written
  code_block_create-IsBlock = record {
    holds = record { elements = refl; allocated = refl };
    spare = inr (refl, refl);
  }

  -- What the growth checks reach: room for one more store, and a free slot after it.
  record IsRoomy (block : CodeBlock A) (xs : List A) (n : ℕ) : Type ℓ where
    holds : Holds block.size block.capacity block.code xs
    sized : block.size ≡ n
    room : n + 1 < block.capacity

  written-zero :
      (n : ℕ) (s t : List (Option A)) (xs : List A)
      → n ≡ 0
      → written n s ≡ some xs
      → written n t ≡ some xs
  unfolding written
  written-zero zero s t xs e h = h
  written-zero (suc n) s t xs e h = absurd (omega arith)

  allocate_block-Holds :
      (block : CodeBlock A) (xs : List A)
      → IsBlock block xs
      → Holds
          (allocate_block block).size
          (allocate_block block).capacity
          (allocate_block block).code
          xs
        × ((allocate_block block).size ≡ block.size)
        × (block.size < (allocate_block block).capacity)
  unfolding allocate_block
  allocate_block-Holds block xs b = elim (Bool-cases (block.capacity == 0)) [
    | inl new ↦
        let empty = ==→eq block.capacity 0 new in
        rw new (
          record {
            elements =
                written-zero block.size block.code _ xs (omega (arith, b.spare)) b.holds.elements;
            allocated = refl;
          },
          refl,
          omega (arith, b.spare),
        )
    | inr old ↦
        let used = ==→ne block.capacity 0 old in rw old (b.holds, refl, omega (arith, b.spare))
  ]

  grow_block-IsRoomy :
      (block : CodeBlock A) (xs : List A)
      → Holds block.size block.capacity block.code xs
      → block.size < block.capacity
      → IsRoomy (grow_block block) xs block.size
  unfolding grow_block
  grow_block-IsRoomy block xs h lt = elim (Bool-cases (leb (block.capacity - 1) block.size)) [
    | inl full ↦ rw full (record {
      holds = extend-Holds block.capacity (block.capacity * 2) (omega arith) h;
      sized = refl;
      room = omega arith;
    })
    | inr roomy ↦
        let below =
          ltb→lt block.size (block.capacity - 1) (leb-ltb block.capacity block.size roomy) in
        rw roomy (record { holds = h; sized = refl; room = omega arith })
  ]

  store_block-IsBlock :
      (block : CodeBlock A) (xs : List A) (n : ℕ) (val : A)
      → IsRoomy block xs n
      → (block' : CodeBlock A) × (store_block block val ≡ ok block')
        × IsBlock block' (xs ++ val ∷ [])
  unfolding store_block
  store_block-IsBlock block xs n val r =
      let inside : block.size < block.capacity = omega (arith, r.sized, r.room) in
      (
        record block { code = set block.code block.size (some val); size = block.size + 1 },
        rw (lt→ltb block.size (length block.code) (omega (arith, r.holds.allocated))),
        record {
          holds = set-Holds val r.holds inside;
          spare = inl (omega (arith, r.sized, r.room));
        },
      )

  -- A write never leaves the array, and appends one instruction to the block's list.
  pub code_block_write-IsBlock :
      (block : CodeBlock A) (xs : List A) (val : A)
      → IsBlock block xs
      → (block' : CodeBlock A) × (code_block_write block val ≡ ok block')
        × IsBlock block' (xs ++ val ∷ [])
  unfolding code_block_write
  code_block_write-IsBlock block xs val b =
      let (held, same, room) = allocate_block-Holds block xs b in
      store_block-IsBlock (grow_block (allocate_block block)) xs (allocate_block block).size val
        (grow_block-IsRoomy (allocate_block block) xs held (omega (arith, same)))

  slot_lem :
      (from : CodeBlock A) (ys : List A) (i : ℕ) (y : A)
      → IsBlock from ys
      → i < from.size
      → get_elem? ys i ≡ some y
      → slot (get_elem? from.code i) ≡ ok y
  unfolding slot
  slot_lem from ys i y b h e = rw (get_elem?-written from.size from.code ys i b.holds.elements h, e)

  merge_from-IsBlock :
      (n i : ℕ) (into from : CodeBlock A) (xs ys : List A)
      → IsBlock into xs
      → IsBlock from ys
      → i + n ≡ from.size
      → (into' : CodeBlock A) × (merge_from n i into from ≡ ok into')
        × IsBlock into' (xs ++ drop i ys)
  unfolding merge_from
  merge_from-IsBlock zero i into from xs ys b c e =
      let ends =
        drop_all ys i (omega (arith, length-written from.size from.code ys c.holds.elements)) in
      (into, refl, rw (ends, append-nil) b)
  merge_from-IsBlock (suc n) i into from xs ys b c e =
      let size = length-written from.size from.code ys c.holds.elements in
      let (y, at) = get_elem?-lt ys i (omega arith) in
      let (next, run, d) = code_block_write-IsBlock into xs y b in
      let (last, runs, f) =
        merge_from-IsBlock n (i + 1) next from (xs ++ y ∷ []) ys d c (omega arith) in
      (
        last,
        rw (slot_lem from ys i y c (omega arith) at, run) runs,
        rw (drop_next ys i y at) (rw append_assoc at f),
      )

  -- A merge never leaves either array, and appends the whole list of the second block.
  pub code_block_merge-IsBlock :
      (into from : CodeBlock A) (xs ys : List A)
      → IsBlock into xs
      → IsBlock from ys
      → (into' : CodeBlock A) × (code_block_merge into from ≡ ok into') × IsBlock into' (xs ++ ys)
  unfolding code_block_merge
  code_block_merge-IsBlock into from xs ys b c =
      merge_from-IsBlock from.size 0 into from xs ys b c (omega arith)
