-- ===== src/Transfer/Iteration.antt =====
-- src/machine/vm.c: `OP_DEREF`, repeated on an iterator over a tuple.
use nord.Prelude.{
  ℕ, zero, suc, ◌+◌, ◌<◌, ◌≡◌, ◌≢◌, refl, ap, ◌∙◌, some, List, [], ◌∷◌, arith, length, get_elem?,
  set, lt→leb, ne→==, eq→==, get_elem?-set_self, get_elem?-set_ne, length-set,
}
use mathlib.Core.Path.{subst, sym}
use nord.Prelude.Result.{Result, ok, ◌>>=◌}
use nord.Value.{Value, Values, to_list}
use nord.Machine.{Instruction, Vm, found, get_register, set_register}
use nord.Transfer.{exec_deref}

module _ {R : Type 0} where
  -- The instruction runs `n` times; the values are those that it leaves in its first register.
  unfoldable pub walk : ℕ → Instruction → Vm R → Result (List (Value R) × Vm R)
  walk zero i vm = ok ([], vm)
  walk (suc n) i vm =
      exec_deref i vm >>= λ m. get_register m i.byte0 >>= λ x. walk n i m >>= λ r. ok (x ∷ r.0, r.1)

  -- The iterator of the instruction stands at the index `k` of the tuple `vs`, and the instruction
  -- moves it by one.
  pub record IsAt (i : Instruction) (cell : ℕ) (vs : Values R) (k : ℕ) (vm : Vm R) : Type 0 where
    pub by_one : i.byte2 ≡ 1
    pub apart : i.byte0 ≢ i.byte1
    pub target : i.byte0 < length vm.registers
    pub register : get_elem? vm.registers i.byte1 ≡ some (Value.iterator cell)
    pub allocated : cell < length vm.heap
    pub at :
        get_elem? vm.heap cell
        ≡ some (record { index = k; length = length (to_list vs); iterable = Value.tuple vs })

  module _ (i : Instruction) (cell : ℕ) (vs : Values R) where
    moved : ℕ → Value R → Vm R → Vm R
    moved k x vm = record vm {
      heap =
          set vm.heap cell
            (record { index = k + 1; length = length (to_list vs); iterable = Value.tuple vs });
      registers = set vm.registers i.byte0 x;
    }

    deref_lem :
        (k : ℕ) (x : Value R) (vm : Vm R)
        → IsAt i cell vs k vm
        → get_elem? (to_list vs) k ≡ some x
        → k < length (to_list vs)
        → exec_deref i vm ≡ ok (moved k x vm)
    unfolding exec_deref get_register set_register moved
    deref_lem k x vm h e lt = rw (
      h.register,
      h.at,
      ne→== k (length (to_list vs)) (λ q. omega arith),
      e,
      h.by_one,
      lt→leb i.byte0 (length vm.registers) h.target,
    )

    moved-IsAt :
        (k : ℕ) (x : Value R) (vm : Vm R)
        → IsAt i cell vs k vm
        → IsAt i cell vs (k + 1) (moved k x vm)
    unfolding moved
    moved-IsAt k x vm h = record {
      by_one = h.by_one;
      apart = h.apart;
      target = omega (arith, length-set vm.registers i.byte0 x, h.target);
      register = get_elem?-set_ne vm.registers i.byte0 i.byte1 x h.apart ∙ h.register;
      allocated = omega (
        arith,
        h.allocated,
        length-set vm.heap cell
            (record { index = k + 1; length = length (to_list vs); iterable = Value.tuple vs }),
      );
      at = get_elem?-set_self vm.heap cell _ h.allocated;
    }

    moved-register :
        (k : ℕ) (x : Value R) (vm : Vm R)
        → IsAt i cell vs k vm
        → get_register (moved k x vm) i.byte0 ≡ ok x
    unfolding moved get_register
    moved-register k x vm h = ap found (get_elem?-set_self vm.registers i.byte0 x h.target)

    -- The elements `xs` that are left, from the index `k` on.
    walk_rest :
        (xs : List (Value R)) (k : ℕ) (vm : Vm R)
        → IsAt i cell vs k vm
        → ((j : ℕ) → get_elem? xs j ≡ get_elem? (to_list vs) (k + j))
        → k + length xs ≡ length (to_list vs)
        → (last : Vm R) × (walk (length xs) i vm ≡ ok (xs, last))
          × IsAt i cell vs (length (to_list vs)) last
    unfolding walk
    walk_rest [] k vm h same e =
        let at_end : k ≡ length (to_list vs) = omega arith in
        (vm, refl, subst (λ n. IsAt i cell vs n vm) at_end h)
    walk_rest (x ∷ xs) k vm h same e =
        let next = moved k x vm in
        let head = ap (get_elem? (to_list vs)) {x = k} {y = k + 0} (omega arith) ∙ sym (same 0) in
        let (last, run, end) =
          walk_rest xs (k + 1) next (moved-IsAt k x vm h)
            (λ j.
              same (suc j)
              ∙ ap (get_elem? (to_list vs)) {x = k + suc j} {y = k + 1 + j} (omega arith))
            (omega arith) in
        (
          last,
          ap
                (λ r. r >>= λ m.
                  get_register m i.byte0 >>= λ y. walk (length xs) i m >>= λ r. ok (y ∷ r.0, r.1))
                (deref_lem k x vm h head (omega arith))
              ∙ ap (λ r. r >>= λ y. walk (length xs) i next >>= λ r. ok (y ∷ r.0, r.1))
                  (moved-register k x vm h)
              ∙ ap (λ r. r >>= λ r. ok (x ∷ r.0, r.1)) run,
          end,
        )

    -- From the start of a tuple, as many steps as it has elements leave them in the register in
    -- order, and the step after them leaves nil and does not move the iterator.
    pub walk-to_list :
        (vm : Vm R)
        → IsAt i cell vs 0 vm
        → (last : Vm R) × (walk (length (to_list vs)) i vm ≡ ok (to_list vs, last))
          × (exec_deref i last
              ≡ ok (record last { registers = set last.registers i.byte0 Value.nil }))
    unfolding exec_deref get_register set_register
    walk-to_list vm h =
        let (last, run, end) =
          walk_rest (to_list vs) 0 vm h
            (λ j. ap (get_elem? (to_list vs)) {x = j} {y = 0 + j} (omega arith)) (omega arith) in
        (
          last,
          run,
          rw (
            end.register,
            end.at,
            eq→== (length (to_list vs)) (length (to_list vs)) refl,
            lt→leb i.byte0 (length last.registers) end.target,
          ),
        )
