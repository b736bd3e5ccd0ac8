-- ===== src/Builtins/Pops.antt =====
-- src/lang/builtins.c and src/machine/vm.c: the arguments of a call of a builtin function, which
-- the machine pushes from the last to the first, and the function pops.
use nord.Prelude.{
  ℕ, suc, ◌+◌, ◌<◌, ◌≤◌, ◌≡◌, refl, ap, sym, ◌∙◌, List, [], ◌∷◌, arith, ◌==◌, if◌then◌else◌, length,
  ne→==, eq→==,
}
use nord.Prelude.Int.{pos, incr}
use nord.Prelude.Result.{Result, ok, ◌>>=◌}
use nord.Floats.{Floats}
use nord.Memory.{Memory}
use nord.Memory.Refinement.{IsValid, view, memory_set_inside, memory_get-view}
use nord.Value.{Value}
use nord.Machine.{Vm, vm_stack_push}
use nord.Machine.Stacks.{vm_stack_pop_lem}
use nord.Builtins.{pop_values}

module _ {R : Type 0} where
  -- What the machine does at one `OP_PUSH` for each value, the last value first.
  unfoldable pub push_values : List (Value R) → Vm R → Result (Vm R)
  push_values [] vm = ok vm
  push_values (x ∷ xs) vm = push_values xs vm >>= λ m. vm_stack_push m x

  at_height : (vm : Vm R) (a b : ℕ) → vm.sp ≡ pos a → a ≡ b → vm ≡ record vm { sp = pos b }
  at_height vm a b sp e = ap (λ s. record vm { sp = s }) (sp ∙ ap pos e)

  -- The values stand in the cells from `n` on, the first of them on top.
  data Stacked (mem : Memory (Value R)) (n : ℕ) : List (Value R) → Type 0 where
    bottom : Stacked mem n []
    top :
        {x : Value R} {xs : List (Value R)}
        → view Value.absent mem (n + length xs) ≡ x
        → Stacked mem n xs
        → Stacked mem n (x ∷ xs)

  -- A write above the values leaves them.
  Stacked-above :
      (mem mem' : Memory (Value R)) (n a : ℕ) (v : Value R) (xs : List (Value R))
      → ((i : ℕ) → view Value.absent mem' i ≡ (if i == a then v else view Value.absent mem i))
      → n + length xs ≤ a
      → Stacked mem n xs
      → Stacked mem' n xs
  Stacked-above mem mem' n a v [] reads le bottom = bottom
  Stacked-above mem mem' n a v (x ∷ xs) reads le (top e s) =
      top (reads (n + length xs) ∙ rw (ne→== (n + length xs) a (λ q. omega arith)) e)
        (Stacked-above mem mem' n a v xs reads (omega arith) s)

  push_values_lem :
      (vm : Vm R) (n : ℕ) (xs : List (Value R))
      → IsValid vm.stack
      → vm.sp ≡ pos n
      → n + length xs < vm.stack.capacity
      → (mem : Memory (Value R)) × (push_values xs vm
          ≡ ok (record vm { stack = mem; sp = pos (n + length xs) }))
        × IsValid mem
        × (mem.capacity ≡ vm.stack.capacity)
        × Stacked mem n xs
  unfolding push_values vm_stack_push incr
  push_values_lem vm n [] h sp room =
      (vm.stack, ap ok (at_height vm n (n + 0) sp (omega arith)), h, refl, bottom)
  push_values_lem vm n (x ∷ xs) h sp room =
      let (mem, run, valid, cap, held) = push_values_lem vm n xs h sp (omega arith) in
      let (mem', run', valid', cap', reads) =
        memory_set_inside Value.absent mem (n + length xs) x valid (omega arith) in
      (
        mem',
        ap (λ r. r >>= λ m. vm_stack_push m x) run
            ∙ ap (λ r. r >>= λ s. ok (record vm { stack = s; sp = pos (n + length xs + 1) })) run'
            ∙ ap (λ k. ok (record vm { stack = mem'; sp = pos k })) {x = n + length xs + 1}
                {y = n + suc (length xs)} (omega arith),
        valid',
        cap' ∙ cap,
        top (reads (n + length xs) ∙ rw (eq→== (n + length xs) (n + length xs) refl))
            (Stacked-above mem mem' n (n + length xs) x xs reads (omega arith) held),
      )

module _ (F : Floats) where
  open F use {Real}

  pop_values_lem :
      (vm : Vm Real) (n : ℕ) (xs : List (Value Real))
      → IsValid vm.stack
      → vm.sp ≡ pos (n + length xs)
      → n + length xs < vm.stack.capacity
      → Stacked vm.stack n xs
      → pop_values F (length xs) vm ≡ ok (xs, record vm { sp = pos n })
  unfolding pop_values
  pop_values_lem vm n [] h sp room held =
      ap (λ m. ok ([], m)) (at_height vm (n + 0) n sp (omega arith))
  pop_values_lem vm n (x ∷ xs) h sp room (top e s) =
      let lower = record vm { sp = pos (n + length xs) } in
      let popped =
        vm_stack_pop_lem vm (n + length xs) x
          (sp ∙ ap pos {x = n + suc (length xs)} {y = n + length xs + 1} (omega arith))
          (memory_get-view Value.absent vm.stack (n + length xs) h
            ∙ rw (ne→== (n + length xs) vm.stack.capacity (λ q. omega arith)) (ap ok e)) in
      ap (λ r. r >>= λ p. pop_values F (length xs) p.1 >>= λ rest. ok (p.0 ∷ rest.0, rest.1)) popped
      ∙ ap (λ r. r >>= λ rest. ok (x ∷ rest.0, rest.1))
          (pop_values_lem lower n xs h refl (omega arith) s)

  -- If the values fit into the stack, then pushing them from the last to the first and popping as
  -- many succeeds, gives them in order, and brings the stack back to its height.
  pub pop_values-push_values :
      (vm : Vm Real) (n : ℕ) (xs : List (Value Real))
      → IsValid vm.stack
      → vm.sp ≡ pos n
      → n + length xs < vm.stack.capacity
      → (mem : Memory (Value Real)) × ((push_values xs vm >>= λ pushed.
            pop_values F (length xs) pushed)
          ≡ ok (xs, record vm { stack = mem }))
  pop_values-push_values vm n xs h sp room =
      let (mem, run, valid, cap, held) = push_values_lem vm n xs h sp room in
      let pushed = record vm { stack = mem; sp = pos (n + length xs) } in
      (
        mem,
        ap (λ r. r >>= λ m. pop_values F (length xs) m) run
            ∙ pop_values_lem pushed n xs valid refl (omega (arith, cap)) held
            ∙ ap (λ m. ok (xs, m)) (sym (at_height (record vm { stack = mem }) n n sp refl)),
      )
