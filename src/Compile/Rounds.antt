-- ===== src/Compile/Rounds.antt =====
-- src/machine/vm.c: a round at an instruction on integers.
use nord.Prelude.{
  ℕ, zero, suc, ◌+◌, ◌*◌, ◌/◌, ◌%◌, ◌^◌, ◌≤◌, ◌<◌, ◌≡◌, refl, ap, ◌∙◌, true, some, List, [], ◌∷◌,
  ◌++◌, arith, ltb, lt→ltb, length, get_elem?, set, take, lt→leb, length-append,
  get_elem?-append_left, get_elem?-append_right,
}
use nord.Prelude.Result.{Result, ok, ◌>>=◌}
use nord.Floats.{Floats}
use nord.Word.{widen16, wneg}
use nord.Value.{Value}
use nord.Operand.{number_of, is_float, is_string}
use nord.Operators.{with_operands, exec_negate, add_values, subtract_values, multiply_values}
use nord.Machine
use nord.Machine.{Instruction, Opcode, Vm, found, get_register, set_register}
use nord.Transfer.{exec_loadv}
use nord.Calls.{Environment}
use nord.Execute.{dispatch, step}
use nord.Execute.Fuel.{Reaches, here, round, step_lem}
use nord.Codegen.{instruction3, instruction4}
use nord.Compile.Expressions.{Operator, plus, minus, times, opcode_of, apply}

module _ {A : Type 0} where
  pub take-set : (xs : List A) (n i : ℕ) (v : A) → n ≤ i → take n (set xs i v) ≡ take n xs
  take-set xs zero i v h = refl
  take-set [] (suc n) i v h = refl
  take-set (x ∷ xs) (suc n) zero v h = absurd (omega arith)
  take-set (x ∷ xs) (suc n) (suc i) v h = ap (λ ys. x ∷ ys) (take-set xs n i v (omega arith))

  pub take-take : (xs : List A) (n m : ℕ) → n ≤ m → take n (take m xs) ≡ take n xs
  take-take xs zero m h = refl
  take-take [] (suc n) zero h = refl
  take-take [] (suc n) (suc m) h = refl
  take-take (x ∷ xs) (suc n) zero h = absurd (omega arith)
  take-take (x ∷ xs) (suc n) (suc m) h = ap (λ ys. x ∷ ys) (take-take xs n m (omega arith))

  pub get_elem?-take : (xs : List A) (n i : ℕ) → i < n → get_elem? (take n xs) i ≡ get_elem? xs i
  get_elem?-take xs zero i h = absurd (omega arith)
  get_elem?-take [] (suc n) i h = refl
  get_elem?-take (x ∷ xs) (suc n) zero h = refl
  get_elem?-take (x ∷ xs) (suc n) (suc i) h = get_elem?-take xs n i (omega arith)

  -- A list stands in another from an index on.
  abbrev pub Stands : List A → ℕ → List A → Type 0
  Stands block start xs = (i : ℕ) → i < length xs → get_elem? block (start + i) ≡ get_elem? xs i

  pub Stands-append_left :
      (block xs ys : List A) (start : ℕ) → Stands block start (xs ++ ys) → Stands block start xs
  Stands-append_left block xs ys start h i lt =
      h i (omega (arith, length-append xs ys)) ∙ get_elem?-append_left xs ys i lt

  pub Stands-append_right :
      (block xs ys : List A) (start : ℕ)
      → Stands block start (xs ++ ys)
      → Stands block (start + length xs) ys
  Stands-append_right block xs ys start h i lt =
      let e : start + length xs + i ≡ start + (length xs + i) = omega arith in
      ap (get_elem? block) e
      ∙ h (length xs + i) (omega (arith, length-append xs ys))
      ∙ get_elem?-append_right xs ys i

  pub Stands-append_end : (xs ys : List A) → Stands (xs ++ ys) (length xs) ys
  Stands-append_end xs ys i lt = get_elem?-append_right xs ys i

  pub Stands-singleton :
      (block : List A) (start : ℕ) (x : A)
      → Stands block start (x ∷ [])
      → get_elem? block start ≡ some x
  Stands-singleton block start x h =
      let e : start ≡ start + 0 = omega arith in ap (get_elem? block) e ∙ h 0 (omega arith)

module _ {R : Type 0} where
  exec_loadv_lem :
      (vm : Vm R) (r n : ℕ)
      → r < 256
      → r < length vm.registers
      → n < 2 ^ 15
      → exec_loadv (instruction3 nord.Machine.op_loadv r n) vm
        ≡ ok (record vm { registers = set vm.registers r (Value.int n) })
  unfolding exec_loadv set_register widen16
  exec_loadv_lem vm r n r8 inside small =
      let low : r % 256 ≡ r = omega arith in
      let pair : n % 256 + 256 * (n / 256 % 256) ≡ n = omega arith in
      let positive : ltb n (2 ^ 15) ≡ true = lt→ltb n (2 ^ 15) small in
      rw (low, pair, positive, lt→leb r (length vm.registers) inside)

  exec_negate_lem :
      (vm : Vm R) (r n : ℕ)
      → r < 256
      → r < length vm.registers
      → get_elem? vm.registers r ≡ some (Value.int n)
      → exec_negate (instruction3 nord.Machine.op_negate r r) vm
        ≡ ok (record vm { registers = set vm.registers r (Value.int (wneg n)) })
  unfolding exec_negate set_register get_register number_of
  exec_negate_lem vm r n r8 inside p =
      let low : r % 256 ≡ r = omega arith in
      let pair : r % 256 + 256 * (r / 256 % 256) ≡ r = omega arith in
      rw (pair, p, low, lt→leb r (length vm.registers) inside)

  with_operands_lem :
      (f : Value R → Value R → Result (Value R)) (op : Opcode) (vm : Vm R) (r s : ℕ)
      (a b v : Value R)
      → r < 256
      → s < 256
      → r < length vm.registers
      → get_elem? vm.registers r ≡ some a
      → get_elem? vm.registers s ≡ some b
      → f a b ≡ ok v
      → with_operands f (instruction4 op r r s) vm
        ≡ ok (record vm { registers = set vm.registers r v })
  unfolding with_operands get_register set_register
  with_operands_lem f op vm r s a b v r8 s8 inside p q w =
      let low : r % 256 ≡ r = omega arith in
      let low' : s % 256 ≡ s = omega arith in
      rw (low, low', p, q, w, lt→leb r (length vm.registers) inside)

-- Rounds after rounds.
pub Reaches-join :
    (F : Floats) (env : Environment) {first mid last : Vm F.Real}
    → Reaches F env first mid
    → Reaches F env mid last
    → Reaches F env first last
Reaches-join F env here k = k
Reaches-join F env (round s h) k = round s (Reaches-join F env h k)

module _ (F : Floats) (env : Environment) where
  open F use {Real}

  -- The round of an operator whose case of the dispatch is known.
  operands_round :
      (op : Opcode) (f : Value Real → Value Real → Result (Value Real))
      → ((i : Instruction) (vm : Vm Real) → dispatch F env i op vm ≡ with_operands f i vm)
      → (vm : Vm Real) (block : List Instruction) (r m n v : ℕ)
      → f (Value.int m) (Value.int n) ≡ ok (Value.int v)
      → get_elem? vm.regions vm.region ≡ some block
      → get_elem? block vm.pc ≡ some (instruction4 op r r (r + 1))
      → r + 1 < 256
      → r < length vm.registers
      → get_elem? vm.registers r ≡ some (Value.int m)
      → get_elem? vm.registers (r + 1) ≡ some (Value.int n)
      → step F env vm
        ≡ ok (some (record vm { pc = vm.pc + 1; registers = set vm.registers r (Value.int v) }))
  operands_round op f case vm block r m n v w p q r8 inside a b =
      let vm₁ = record vm { pc = vm.pc + 1 } in
      step_lem F env vm block _ p q
      ∙ ap (λ k. k >>= λ next. ok (some next))
          (case _ vm₁ ∙ with_operands_lem f op vm₁ r (r + 1) _ _ _ (omega arith) r8 inside a b w)

  -- The round of an operator on two integers.
  pub operator_round :
      (op : Operator) (vm : Vm Real) (block : List Instruction) (r m n : ℕ)
      → get_elem? vm.regions vm.region ≡ some block
      → get_elem? block vm.pc ≡ some (instruction4 (opcode_of op) r r (r + 1))
      → r + 1 < 256
      → r < length vm.registers
      → get_elem? vm.registers r ≡ some (Value.int m)
      → get_elem? vm.registers (r + 1) ≡ some (Value.int n)
      → step F env vm
        ≡ ok (
            some (record vm {
              pc = vm.pc + 1;
              registers = set vm.registers r (Value.int (apply op m n));
            }))
  unfolding dispatch add_values subtract_values multiply_values is_float is_string number_of
  operator_round plus vm block r m n =
      operands_round nord.Machine.op_add (add_values F) (λ i vm. refl) vm block r m n _ refl
  operator_round minus vm block r m n =
      operands_round nord.Machine.op_subtract (subtract_values F) (λ i vm. refl) vm block r m n _
        refl
  operator_round times vm block r m n =
      operands_round nord.Machine.op_multiply (multiply_values F) (λ i vm. refl) vm block r m n _
        refl

  pub number_round :
      (vm : Vm Real) (block : List Instruction) (r n : ℕ)
      → get_elem? vm.regions vm.region ≡ some block
      → get_elem? block vm.pc ≡ some (instruction3 nord.Machine.op_loadv r n)
      → r < 256
      → r < length vm.registers
      → n < 2 ^ 15
      → step F env vm
        ≡ ok (some (record vm { pc = vm.pc + 1; registers = set vm.registers r (Value.int n) }))
  unfolding dispatch
  number_round vm block r n p q r8 inside small =
      step_lem F env vm block _ p q
      ∙ ap (λ k. k >>= λ next. ok (some next))
          (exec_loadv_lem (record vm { pc = vm.pc + 1 }) r n r8 inside small)

  pub negate_round :
      (vm : Vm Real) (block : List Instruction) (r n : ℕ)
      → get_elem? vm.regions vm.region ≡ some block
      → get_elem? block vm.pc ≡ some (instruction3 nord.Machine.op_negate r r)
      → r < 256
      → r < length vm.registers
      → get_elem? vm.registers r ≡ some (Value.int n)
      → step F env vm
        ≡ ok (
            some
              (record vm { pc = vm.pc + 1; registers = set vm.registers r (Value.int (wneg n)) }))
  unfolding dispatch
  negate_round vm block r n p q r8 inside a =
      step_lem F env vm block _ p q
      ∙ ap (λ k. k >>= λ next. ok (some next))
          (exec_negate_lem (record vm { pc = vm.pc + 1 }) r n r8 inside a)
