-- ===== src/Execute/Fuel.antt =====
-- src/machine/vm.c: the loop of `vm_execute` and the fuel of its model.
use nord.Prelude.{ℕ, zero, suc, ◌+◌, ◌≡◌, none, some, arith, ◌≤◌, List, get_elem?}
use nord.Prelude.Result.{Result, Fault, ok, fault, ◌>>=◌}
use nord.Floats.{Floats}
use nord.Machine.{Vm, Instruction}
use nord.Calls.{Environment}
use nord.Execute.{dispatch, step, vm_execute}

module _ (F : Floats) (env : Environment) where
  open F use {Real}

  -- The runs of the loop: `Runs vm r` when finitely many rounds from `vm` end in `r`, which is a
  -- state whose counter has passed the end of its block or a fault of one of the rounds.
  pub data Runs : Vm Real → Result (Vm Real) → Type 0 where
    halts : {vm : Vm Real} → step F env vm ≡ ok none → Runs vm (ok vm)
    faults : {vm : Vm Real} {e : Fault} → step F env vm ≡ fault e → Runs vm (fault e)
    goes_on :
        {vm next : Vm Real} {r : Result (Vm Real)}
        → step F env vm ≡ ok (some next)
        → Runs next r
        → Runs vm r

  -- Finitely many rounds from one state to another.
  pub data Reaches : Vm Real → Vm Real → Type 0 where
    here : {vm : Vm Real} → Reaches vm vm
    round :
        {vm mid last : Vm Real} → step F env vm ≡ ok (some mid) → Reaches mid last → Reaches vm last

  -- A run that goes on from a state that is reached is a run.
  pub Reaches-Runs :
      {vm mid : Vm Real} {r : Result (Vm Real)} → Reaches vm mid → Runs mid r → Runs vm r
  Reaches-Runs here run = run
  Reaches-Runs (round s reach) run = goes_on s (Reaches-Runs reach run)

  last_round :
      (vm : Vm Real) → step F env vm ≡ ok none → (m : ℕ) → 1 ≤ m → vm_execute F env m vm ≡ ok vm
  unfolding vm_execute
  last_round vm s zero le = absurd (omega arith)
  last_round vm s (suc m) le = rw s

  faulty_round :
      (vm : Vm Real) (e : Fault)
      → step F env vm ≡ fault e
      → (m : ℕ) → 1 ≤ m
      → vm_execute F env m vm ≡ fault e
  unfolding vm_execute
  faulty_round vm e s zero le = absurd (omega arith)
  faulty_round vm e s (suc m) le = rw s

  next_round :
      (vm next : Vm Real) (r : Result (Vm Real))
      → step F env vm ≡ ok (some next)
      → (n : ℕ) → ((m : ℕ) → n ≤ m → vm_execute F env m next ≡ r)
      → (m : ℕ) → suc n ≤ m
      → vm_execute F env m vm ≡ r
  unfolding vm_execute
  next_round vm next r s n rest zero le = absurd (omega arith)
  next_round vm next r s n rest (suc m) le = rw s (rest m (omega arith))

  -- One round at an instruction of the block that runs.
  pub step_lem :
      (vm : Vm Real) (block : List Instruction) (i : Instruction)
      → get_elem? vm.regions vm.region ≡ some block
      → get_elem? block vm.pc ≡ some i
      → step F env vm
        ≡ (dispatch F env i i.opcode (record vm { pc = vm.pc + 1 }) >>= λ next. ok (some next))
  unfolding step
  step_lem vm block i p q = rw (p, q)

  -- Every run of the loop, however it ends, is what `vm_execute` computes with enough fuel: there is
  -- an amount from which on the result is that of the run.
  pub Runs-vm_execute :
      {vm : Vm Real} {r : Result (Vm Real)}
      → Runs vm r
      → (n : ℕ) × ((m : ℕ) → n ≤ m → vm_execute F env m vm ≡ r)
  Runs-vm_execute (halts s) = (1, last_round _ s)
  Runs-vm_execute (faults s) = (1, faulty_round _ _ s)
  Runs-vm_execute (goes_on s run) =
      let (n, rest) = Runs-vm_execute run in (suc n, next_round _ _ _ s n rest)
