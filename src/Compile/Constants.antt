-- ===== src/Compile/Constants.antt =====
-- src/compiler/compile.c and src/machine/memory.c: the constants of a binary, as the compiler stores
-- them from address 0 on.
use nord.Prelude.{
  ℕ, zero, suc, ◌≤◌, ◌<◌, ◌≡◌, refl, ap, ◌∙◌, Bool-cases, inl, inr, ltb, ltb→lt, ne→==, List, [],
  ◌∷◌, arith, length, get_or-set, get_or-append-replicate,
}
use nord.Prelude.Int.{pos}
use nord.Prelude.Holds.{Holds, value, none_left, weaken-Holds}
use nord.Memory.{Memory, memory_set, write, grow, last_index}
use nord.Memory.Refinement.{view}
use nord.Value.{Value}

module _ {R : Type 0} where
  -- The first `n` cells of the memory, the last of them in front.
  abbrev pub cells : ℕ → Memory (Value R) → List (Value R)
  cells zero mem = []
  cells (suc n) mem = view Value.absent mem n ∷ cells n mem

  cells_eq :
      (n : ℕ) (mem mem' : Memory (Value R))
      → ((i : ℕ) → i < n → view Value.absent mem' i ≡ view Value.absent mem i)
      → cells n mem' ≡ cells n mem
  cells_eq zero mem mem' h = refl
  cells_eq (suc n) mem mem' h =
      ap (λ v. v ∷ cells n mem') (h n (omega arith))
      ∙ ap (λ vs. view Value.absent mem n ∷ vs) (cells_eq n mem mem' (λ i lt. h i (omega arith)))

  write-cells :
      (n a : ℕ) (mem : Memory (Value R)) (v : Value R)
      → n ≤ a
      → Holds (λ mem'. cells n mem' ≡ cells n mem) (write mem a v)
  unfolding write
  write-cells n a mem v h = elim (Bool-cases (ltb a (length mem.contents))) [
    | inl inside ↦ rw inside (
        value (
          cells_eq n mem _ λ i lt.
            get_or-set mem.contents a i v Value.absent (ltb→lt _ _ inside)
            ∙ rw (ne→== i a (λ e. omega arith)) refl))
    | inr over ↦ rw over none_left
  ]

  grow-cells : (n a : ℕ) (mem : Memory (Value R)) → cells n (grow Value.absent mem a) ≡ cells n mem
  unfolding grow
  grow-cells n a mem =
      cells_eq n mem _ λ i lt. get_or-append-replicate mem.contents _ i Value.absent

  -- A store behind the first `n` cells leaves them.
  pub memory_set-cells :
      (n a : ℕ) (mem : Memory (Value R)) (v : Value R)
      → n ≤ a
      → Holds (λ mem'. cells n mem' ≡ cells n mem) (memory_set Value.absent mem (pos a) v)
  unfolding memory_set
  memory_set-cells n a mem v h = elim (Bool-cases (ltb (last_index mem.capacity) a)) [
    | inl out ↦ rw out (
        weaken-Holds (write-cells n a (grow Value.absent mem a) v h)
          λ mem' e. e ∙ grow-cells n a mem)
    | inr here ↦ rw here (write-cells n a mem v h)
  ]
