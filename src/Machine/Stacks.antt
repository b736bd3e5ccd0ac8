-- ===== src/Machine/Stacks.antt =====
-- src/machine/vm.c: the evaluation stack of a machine against a stack of values.
use nord.Prelude.{
  ℕ, ◌+◌, ◌*◌, ◌^◌, ◌<◌, ◌≡◌, ◌≢◌, refl, ◌∙◌, arith, ◌==◌, if◌then◌else◌, ne→==, eq→==,
}
use nord.Prelude.Int.{pos, incr, decr}
use nord.Prelude.Result.{ok}
use nord.Memory.{Memory, memory_get}
use nord.Memory.Refinement.{IsValid, Stores, view, memory_set-Stores, memory_get-view}
use nord.Value.{Value}
use nord.Machine.{Vm, vm_stack_push, vm_stack_pop}
use native.Mathlib.Numerals.{unary_clauses}

pub decr_incr : (n : ℕ) → decr (pos (n + 1)) ≡ pos n
unfolding decr
decr_incr n = simp unary_clauses refl

-- A memory after a write.
module _ {V : Type 0} (absent : V) where
  pub Stores-IsValid :
      (mem mem' : Memory V) (a : ℕ) (v : V)
      → IsValid mem
      → Stores absent mem a v mem'
      → mem.capacity * 2 + a * 2 < 2 ^ 30
      → IsValid mem'
  Stores-IsValid mem mem' a v h s bound = record {
    allocated = s.allocated;
    nonempty = omega (arith, h.nonempty, s.grows);
    small = omega (arith, s.bounded);
  }

  pub get_stored :
      (mem mem' : Memory V) (a : ℕ) (v : V)
      → IsValid mem'
      → Stores absent mem a v mem'
      → memory_get absent mem' (pos a) ≡ ok v
  get_stored mem mem' a v h s =
      memory_get-view absent mem' a h
      ∙ rw (ne→== a mem'.capacity (omega (arith, s.covers)), s.reads a, eq→== a a refl)

module _ {R : Type 0} where
  pub vm_stack_push_lem :
      (vm : Vm R) (n : ℕ) (v : Value R)
      → IsValid vm.stack
      → vm.sp ≡ pos n
      → n ≢ vm.stack.capacity * 2
      → (mem : Memory (Value R)) × (vm_stack_push vm v
          ≡ ok (record vm { stack = mem; sp = pos (n + 1) }))
        × Stores Value.absent vm.stack n v mem
  unfolding vm_stack_push incr
  vm_stack_push_lem vm n v h sp ne =
      let (mem, run, s) = memory_set-Stores Value.absent vm.stack n v h ne in (mem, rw (sp, run), s)

  pub vm_stack_pop_lem :
      (vm : Vm R) (n : ℕ) (v : Value R)
      → vm.sp ≡ pos (n + 1)
      → memory_get Value.absent vm.stack (pos n) ≡ ok v
      → vm_stack_pop vm ≡ ok (v, record vm { sp = pos n })
  unfolding vm_stack_pop
  vm_stack_pop_lem vm n v sp g = rw (sp, decr_incr n, g)

  -- A push at a height that is not twice the capacity succeeds and raises the height by one. A pop
  -- then gives back the value and the height, and no other cell of the stack has changed.
  pub pop-push :
      (vm : Vm R) (n : ℕ) (v : Value R)
      → IsValid vm.stack
      → vm.sp ≡ pos n
      → n ≢ vm.stack.capacity * 2
      → vm.stack.capacity * 2 + n * 2 < 2 ^ 30
      → (next : Vm R) × (vm_stack_push vm v ≡ ok next)
        × (next.sp ≡ pos (n + 1))
        × IsValid next.stack
        × (vm_stack_pop next ≡ ok (v, record next { sp = pos n }))
        × ((i : ℕ)
            → view Value.absent next.stack i ≡ (if i == n then v else view Value.absent vm.stack i))
  pop-push vm n v h sp ne bound =
      let (mem, run, s) = vm_stack_push_lem vm n v h sp ne in
      let valid = Stores-IsValid Value.absent vm.stack mem n v h s bound in
      let next = record vm { stack = mem; sp = pos (n + 1) } in
      (
        next,
        run,
        refl,
        valid,
        vm_stack_pop_lem next n v refl (get_stored Value.absent vm.stack mem n v valid s),
        s.reads,
      )
