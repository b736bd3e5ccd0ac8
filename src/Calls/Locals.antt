-- ===== src/Calls/Locals.antt =====
-- src/machine/vm.c: the two loops over the list of a function's locals, which save registers into
-- the buffer of a call and restore them from it.
use nord.Prelude.{
  ℕ, zero, suc, ◌+◌, ◌≤◌, ◌<◌, ◌≡◌, ◌≢◌, refl, ap, sym, ◌∙◌, some, List, [], ◌∷◌, arith, length,
  get_elem?, get_or, set, drop, lt→leb, ne→==, get_elem?-set_ne, get_elem?-set_self,
  get_elem?-get_or, length-set,
}
use nord.Prelude.Result.{ok}
use mathlib.Core.Option.{some-injective}
use nord.Value.{Value}
use nord.Machine.{Vm, set_register}
use nord.Calls.{count_locals, save_locals, restore_locals}

-- `locals` lists the registers `ls`, each of them one of `n` registers and none of them 0, and then
-- a 0.
pub data Lists (n : ℕ) : List ℕ → List ℕ → Type 0 where
  stop : {rest : List ℕ} → Lists n (0 ∷ rest) []
  more :
      {reg : ℕ} {locals ls : List ℕ}
      → 0 < reg
      → reg < n
      → Lists n locals ls
      → Lists n (reg ∷ locals) (reg ∷ ls)

-- No register twice.
pub data Distinct : List ℕ → Type 0 where
  nothing : Distinct []
  fresh :
      {reg : ℕ} {ls : List ℕ}
      → ((k : ℕ) → get_elem? ls k ≢ some reg)
      → Distinct ls
      → Distinct (reg ∷ ls)

pub count_locals-Lists :
    {n : ℕ} {locals ls : List ℕ} → Lists n locals ls → count_locals locals ≡ ok (length ls)
count_locals-Lists stop = refl
count_locals-Lists (more {reg} p q l) = rw (ne→== reg 0 (omega arith), count_locals-Lists l)

pub drop-Lists :
    {n : ℕ} {locals ls : List ℕ} (k : ℕ)
    → k ≤ length ls
    → Lists n locals ls
    → Lists n (drop k locals) (drop k ls)
drop-Lists zero le l = l
drop-Lists (suc k) le stop = absurd (omega arith)
drop-Lists (suc k) le (more p q l) = drop-Lists k (omega arith) l

module _ {R : Type 0} where
  -- The buffer after the saving loop.
  abbrev pub saved : List ℕ → ℕ → List (Value R) → List (Value R) → List (Value R)
  saved [] i registers save = save
  saved (reg ∷ ls) i registers save =
      saved ls (i + 1) registers (set save i (get_or registers reg Value.absent))

  pub save_locals-saved :
      (registers : List (Value R)) {locals ls : List ℕ} (i : ℕ) (save : List (Value R))
      → Lists (length registers) locals ls
      → i + length ls ≤ length save
      → save_locals locals i registers save ≡ ok (saved ls i registers save)
  unfolding save_locals
  save_locals-saved registers i save stop le = refl
  save_locals-saved registers i save (more {reg} p q l) le =
      rw
        (
          ne→== reg 0 (omega arith),
          get_elem?-get_or registers reg Value.absent q,
          lt→leb i (length save) (omega arith),
        )
        (save_locals-saved registers (i + 1) _ l
          (omega (arith, length-set save i (get_or registers reg Value.absent))))

  -- The registers after the restoring loop.
  abbrev pub restored : List ℕ → List (Value R) → List (Value R) → List (Value R)
  restored [] save registers = registers
  restored (reg ∷ ls) [] registers = registers
  restored (reg ∷ ls) (v ∷ save) registers = restored ls save (set registers reg v)

  pub restore_locals-restored :
      {n : ℕ} {locals ls : List ℕ} (save : List (Value R)) (vm : Vm R)
      → Lists n locals ls
      → n ≤ length vm.registers
      → length ls ≤ length save
      → restore_locals locals save vm ≡ ok (record vm { registers = restored ls save vm.registers })
  unfolding restore_locals set_register
  restore_locals-restored [] vm stop le h = refl
  restore_locals-restored (v ∷ save) vm stop le h = refl
  restore_locals-restored [] vm (more p q l) le h = absurd (omega arith)
  restore_locals-restored (v ∷ save) vm (more {reg} p q l) le h =
      rw (ne→== reg 0 (omega arith), lt→leb reg (length vm.registers) (omega arith))
        (restore_locals-restored save (record vm { registers = set vm.registers reg v }) l
          (omega (arith, length-set vm.registers reg v)) (omega arith))

  pub length-saved :
      (ls : List ℕ) (i : ℕ) (registers save : List (Value R))
      → length (saved ls i registers save) ≡ length save
  length-saved [] i registers save = refl
  length-saved (reg ∷ ls) i registers save =
      length-saved ls (i + 1) registers _ ∙ length-set save i (get_or registers reg Value.absent)

  saved_before :
      (ls : List ℕ) (i j : ℕ) (registers save : List (Value R))
      → j < i
      → get_elem? (saved ls i registers save) j ≡ get_elem? save j
  saved_before [] i j registers save h = refl
  saved_before (reg ∷ ls) i j registers save h =
      saved_before ls (i + 1) j registers _ (omega arith)
      ∙ get_elem?-set_ne save i j (get_or registers reg Value.absent) (λ e. omega arith)

  pub saved_at :
      (ls : List ℕ) (i k : ℕ) (registers save : List (Value R)) (reg : ℕ)
      → i + length ls ≤ length save
      → get_elem? ls k ≡ some reg
      → get_elem? (saved ls i registers save) (i + k) ≡ some (get_or registers reg Value.absent)
  saved_at [] i k registers save reg le h = cc
  saved_at (r ∷ ls) i zero registers save reg le h =
      ap (get_elem? (saved (r ∷ ls) i registers save)) (omega arith)
      ∙ saved_before ls (i + 1) i registers _ (omega arith)
      ∙ get_elem?-set_self save i (get_or registers r Value.absent) (omega arith)
      ∙ ap (λ x. some (get_or registers x Value.absent)) (some-injective r reg h)
  saved_at (r ∷ ls) i (suc k) registers save reg le h =
      ap (get_elem? (saved (r ∷ ls) i registers save)) (omega arith)
      ∙ saved_at ls (i + 1) k registers _ reg
          (omega (arith, length-set save i (get_or registers r Value.absent))) h

  pub restored_other :
      (ls : List ℕ) (save registers : List (Value R)) (reg : ℕ)
      → ((k : ℕ) → get_elem? ls k ≢ some reg)
      → get_elem? (restored ls save registers) reg ≡ get_elem? registers reg
  restored_other [] save registers reg h = refl
  restored_other (r ∷ ls) [] registers reg h = refl
  restored_other (r ∷ ls) (v ∷ save) registers reg h =
      restored_other ls save (set registers r v) reg (λ k. h (suc k))
      ∙ get_elem?-set_ne registers r reg v (λ e. h 0 (ap some e))

  pub restored_at :
      (ls : List ℕ) (save registers : List (Value R)) (k reg : ℕ) (v : Value R)
      → Distinct ls
      → reg < length registers
      → get_elem? ls k ≡ some reg
      → get_elem? save k ≡ some v
      → get_elem? (restored ls save registers) reg ≡ some v
  restored_at [] save registers k reg v d lt p q = cc
  restored_at (r ∷ ls) [] registers k reg v d lt p q = cc
  restored_at (r ∷ ls) (x ∷ save) registers zero reg v (fresh new d) lt p q =
      let e = some-injective r reg p in
      rw (sym e) (
        restored_other ls save (set registers r x) r new
        ∙ get_elem?-set_self registers r x (omega arith)
        ∙ q)
  restored_at (r ∷ ls) (x ∷ save) registers (suc k) reg v (fresh new d) lt p q =
      restored_at ls save (set registers r x) k reg v d (omega (arith, length-set registers r x)) p
        q
