-- ===== src/Memory/Refinement.antt =====
-- src/machine/memory.c against its specification: an unbounded array of values that is absent
-- wherever nothing was stored.
use nord.Prelude.{
  ℕ, ◌+◌, ◌-◌, ◌*◌, ◌≤◌, ◌<◌, ◌^◌, ◌≡◌, ◌≢◌, refl, ◌∙◌, true, false, ◌++◌, ◌⊎◌, inl, inr, ==→eq,
  ==→ne, ne→==, arith, ltb, ◌==◌, if◌then◌else◌, Bool-cases, ltb→lt, ltb→ge, lt→ltb, ge→ltb, length,
  get_or, set, replicate, length-append, length-replicate, length-set, get_or-set, get_or-replicate,
  get_or-append-replicate, get_elem?-get_or, get_or-ge, get_elem?-ge,
}
use nord.Prelude.Int.{pos}
use nord.Prelude.Result.{ok, fault, out_of_bounds}
use nord.Memory.{Memory, last_index, memory_create, grow, write, memory_set, memory_get, read}

-- The array that was allocated is as long as the capacity says, and is not empty.
pub record IsValid {ℓ} {V : Type ℓ} (mem : Memory V) : Type ℓ where
  pub allocated : length mem.contents ≡ mem.capacity
  pub nonempty : 0 < mem.capacity
  pub small : mem.capacity < 2 ^ 30

last_index_lem : (c : ℕ) → 0 < c → c < 2 ^ 30 → last_index c ≡ c - 1
unfolding last_index
last_index_lem c h k = omega arith

module _ {ℓ} {V : Type ℓ} (absent : V) where
  -- The abstract array.
  abbrev pub view : Memory V → ℕ → V
  view mem i = get_or mem.contents i absent

  -- What a write of `v` at `a` promises.
  pub record Stores (mem : Memory V) (a : ℕ) (v : V) (mem' : Memory V) : Type ℓ where
    pub allocated : length mem'.contents ≡ mem'.capacity
    pub grows : mem.capacity ≤ mem'.capacity
    pub covers : a < mem'.capacity
    pub bounded : mem'.capacity ≤ mem.capacity * 2 + a * 2
    pub reads : (i : ℕ) → view mem' i ≡ (if i == a then v else view mem i)

  write_lem :
      (mem : Memory V) (a : ℕ) (v : V)
      → length mem.contents ≡ mem.capacity
      → a < mem.capacity
      → write mem a v ≡ ok (record mem { contents = set mem.contents a v })
  unfolding write
  write_lem mem a v l h = rw (lt→ltb a (length mem.contents) (omega arith))

  grown_capacity :
      (mem : Memory V) (a : ℕ)
      → 0 < mem.capacity
      → (mem.capacity ≤ (grow absent mem a).capacity)
        × ((grow absent mem a).capacity ≤ mem.capacity * 2 + a * 2)
        × (mem.capacity ≤ a → a ≢ mem.capacity * 2 → a < (grow absent mem a).capacity)
  unfolding grow
  grown_capacity mem a h = ground arith

  grown_length :
      (mem : Memory V) (a : ℕ)
      → IsValid mem
      → length (grow absent mem a).contents ≡ (grow absent mem a).capacity
  unfolding grow
  grown_length mem a h =
      length-append mem.contents _
      ∙ omega (
        arith,
        length-replicate ((grow absent mem a).capacity - mem.capacity) absent,
        (grown_capacity mem a h.nonempty).0,
        h.allocated,
      )

  grown_view : (mem : Memory V) (a i : ℕ) → view (grow absent mem a) i ≡ view mem i
  unfolding grow
  grown_view mem a i = get_or-append-replicate mem.contents _ i absent

  module _ (mem : Memory V) (a : ℕ) (v : V) (h : IsValid mem) where
    -- A write below the capacity, or beyond it but not at exactly twice the capacity, succeeds.
    -- It is the point update of the abstract array, and the storage is as long as its capacity.
    pub memory_set-Stores :
        a ≢ mem.capacity * 2
        → (mem' : Memory V) × (memory_set absent mem (pos a) v ≡ ok mem') × Stores mem a v mem'
    unfolding memory_set
    memory_set-Stores ne = elim (Bool-cases (ltb (mem.capacity - 1) a)) [
      | inl out ↦
          let big = grow absent mem a in
          let (le, bound, covers) = grown_capacity mem a h.nonempty in
          let past = ltb→lt (mem.capacity - 1) a out in
          let inside = covers (omega arith) ne in
          (
            record big { contents = set big.contents a v },
            rw (last_index_lem mem.capacity h.nonempty h.small, out)
                (write_lem big a v (grown_length mem a h) inside),
            record {
              allocated = length-set big.contents a v ∙ grown_length mem a h;
              grows = le;
              covers = inside;
              bounded = bound;
              reads = λ i.
                  get_or-set big.contents a i v absent (omega (arith, grown_length mem a h))
                  ∙ rw (grown_view mem a i);
            },
          )
      | inr here ↦
          let inside = ltb→ge (mem.capacity - 1) a here in
          (
            record mem { contents = set mem.contents a v },
            rw (last_index_lem mem.capacity h.nonempty h.small, here)
                (write_lem mem a v h.allocated (omega (arith, h.nonempty))),
            record {
              allocated = length-set mem.contents a v ∙ h.allocated;
              grows = omega arith;
              covers = omega (arith, h.nonempty);
              bounded = omega arith;
              reads = λ i.
                  get_or-set mem.contents a i v absent (omega (arith, h.nonempty, h.allocated));
            },
          )
    ]

    -- A write inside the array changes that cell only, and keeps the storage.
    pub memory_set_inside :
        a < mem.capacity
        → (mem' : Memory V) × (memory_set absent mem (pos a) v ≡ ok mem')
          × IsValid mem'
          × (mem'.capacity ≡ mem.capacity)
          × ((i : ℕ) → view mem' i ≡ (if i == a then v else view mem i))
    unfolding memory_set
    memory_set_inside inside = (
      record mem { contents = set mem.contents a v },
      rw
          (
            last_index_lem mem.capacity h.nonempty h.small,
            ge→ltb (mem.capacity - 1) a (omega (arith, h.nonempty)),
          )
          (write_lem mem a v h.allocated inside),
      record {
        allocated = length-set mem.contents a v ∙ h.allocated;
        nonempty = h.nonempty;
        small = h.small;
      },
      refl,
      λ i. get_or-set mem.contents a i v absent (omega (arith, h.allocated)),
    )

    -- A write at exactly twice the capacity doubles the array and then stores one past its end.
    pub memory_set_overrun :
        a ≡ mem.capacity * 2 → memory_set absent mem (pos a) v ≡ fault out_of_bounds
    unfolding memory_set grow write
    memory_set_overrun e = rw (
      last_index_lem mem.capacity h.nonempty h.small,
      lt→ltb (mem.capacity - 1) a (omega (arith, h.nonempty)),
      ge→ltb (mem.capacity * 2) a (omega arith),
      ge→ltb a (length (mem.contents ++ replicate (mem.capacity * 2 - mem.capacity) absent)) (
          omega (
            arith,
            length-append mem.contents (replicate (mem.capacity * 2 - mem.capacity) absent),
            length-replicate (mem.capacity * 2 - mem.capacity) absent,
            h.allocated,
          )),
    )

  -- A read gives the element of the abstract array, except at the capacity itself: there the
  -- bounds test lets through a read one past the end of the array.
  pub memory_get-view :
      (mem : Memory V) (a : ℕ)
      → IsValid mem
      → memory_get absent mem (pos a)
        ≡ (if a == mem.capacity then fault out_of_bounds else ok (view mem a))
  unfolding memory_get read
  memory_get-view mem a h = elim (Bool-cases (ltb a mem.capacity)) [
    | inl inside ↦
        let lt = ltb→lt a mem.capacity inside in
        rw (
          get_elem?-get_or mem.contents a absent (omega (arith, h.allocated)),
          ge→ltb mem.capacity a (omega arith),
          ne→== a mem.capacity (omega arith),
        )
    | inr out ↦
        let ge = ltb→ge a mem.capacity out in
        rw
          (
            get_elem?-ge mem.contents a (omega (arith, h.allocated)),
            get_or-ge mem.contents a absent (omega (arith, h.allocated)),
          )
          (past ge (Bool-cases (a == mem.capacity)))
  ]
    where
      past :
          mem.capacity ≤ a
          → ((a == mem.capacity) ≡ true) ⊎ ((a == mem.capacity) ≡ false)
          → (if ltb mem.capacity a then ok absent else fault out_of_bounds)
            ≡ (if a == mem.capacity then fault out_of_bounds else ok absent)
      past ge (inl e) = rw (e, ge→ltb mem.capacity a (omega (arith, ==→eq a mem.capacity e)))
      past ge (inr n) = rw (n, lt→ltb mem.capacity a (omega (arith, ==→ne a mem.capacity n)))

  pub memory_create-IsValid :
      (n : ℕ)
      → 0 < n
      → n < 2 ^ 30
      → IsValid (memory_create absent n) × ((i : ℕ) → view (memory_create absent n) i ≡ absent)
  unfolding memory_create
  memory_create-IsValid n h k = (
    record { allocated = length-replicate n absent; nonempty = h; small = k },
    λ i. get_or-replicate n i absent,
  )
