-- ===== src/Memory.antt =====
-- src/machine/memory.c: the dynamic array of values that serves as the memory, the stacks and
-- the module buffers of a machine. The value type and its zeroed value are parameters.
-- A capacity stays below 2 ^ 30, so that the `int` products of `memory_set` do not overflow.
pub mod Refinement
use nord.Prelude.{
  ℕ, ◌+◌, ◌-◌, ◌*◌, ◌%◌, ◌^◌, Option, none, some, List, ◌++◌, ltb, if◌then◌else◌, length, get_elem?,
  set, replicate,
}
use nord.Prelude.Int.{ℤ, pos, negsuc}
use nord.Prelude.Result.{Result, ok, fault, out_of_bounds}

pub record Memory {ℓ} (V : Type ℓ) : Type ℓ where
  pub capacity : ℕ
  pub contents : List V

-- `capacity - 1` on `size_t`
unfoldable pub last_index : ℕ → ℕ
last_index capacity = (capacity + 2 ^ 64 - 1) % 2 ^ 64

module _ {ℓ} {V : Type ℓ} where
  -- `mem->contents[address] = val`
  unfoldable pub write : Memory V → ℕ → V → Result (Memory V)
  write mem address val =
      if ltb address (length mem.contents)
      then ok (record mem { contents = set mem.contents address val })
      else fault out_of_bounds

  read : Option V → Result V
  read none = fault out_of_bounds
  read (some v) = ok v

module _ {ℓ} {V : Type ℓ} (absent : V) where
  -- `calloc` zeroes the contents, and a zeroed value is absent.
  unfoldable pub memory_create : ℕ → Memory V
  memory_create size = record { capacity = size; contents = replicate size absent }

  -- the block under `if (mem->capacity - 1 < address)`
  unfoldable pub grow : Memory V → ℕ → Memory V
  grow mem address =
      let capacity = if ltb (mem.capacity * 2) address then address * 2 else mem.capacity * 2 in
      record {
        capacity = capacity;
        contents = mem.contents ++ replicate (capacity - mem.capacity) absent;
      }

  -- A negative address is beyond every capacity, as a `size_t`, and before the array.
  unfoldable pub memory_set : Memory V → ℤ → V → Result (Memory V)
  unfolding last_index grow write
  memory_set mem (negsuc n) val = fault out_of_bounds
  memory_set mem (pos address) val =
      write (if ltb (last_index mem.capacity) address then grow mem address else mem) address val

  -- A negative address is greater than every capacity, as a `size_t`.
  unfoldable pub memory_get : Memory V → ℤ → Result V
  unfolding read
  memory_get mem (negsuc n) = ok absent
  memory_get mem (pos address) =
      if ltb mem.capacity address then ok absent else read (get_elem? mem.contents address)
