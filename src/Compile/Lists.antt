-- ===== src/Compile/Lists.antt =====
-- src/compiler/compile.c: the lists of instructions that the blocks of a store stand for, and how a change
-- of a block changes them.
use nord.Prelude.{ℕ, zero, suc, ◌≡◌, ap, sym, ◌∙◌, List, [], ◌∷◌, ◌++◌, get_elem?, set}
use mathlib.Core.List.{append_assoc, append-nil}
use nord.Prelude.Result.{Result, ok, bind}
use nord.Prelude.Holds.{Holds, value, none_left, weaken-Holds}
use nord.Bytecode.{CodeBlock, code_block_create}
use nord.Bytecode.Growth.{IsBlock, code_block_create-IsBlock}
use nord.Machine.{Instruction, found}

-- The blocks stand for the lists of instructions.
abbrev pub Lists : List (CodeBlock Instruction) → List (List Instruction) → Type 0
Lists [] [] = Unit
Lists [] (xs ∷ xss) = ⊥
Lists (b ∷ bs) [] = ⊥
Lists (b ∷ bs) (xs ∷ xss) = IsBlock b xs × Lists bs xss

-- Each list of the first is the start of one of the second, in order.
abbrev pub Longer : List (List Instruction) → List (List Instruction) → Type 0
Longer [] yss = Unit
Longer (xs ∷ xss) [] = ⊥
Longer (xs ∷ xss) (ys ∷ yss) = ((zs : List Instruction) × (ys ≡ xs ++ zs)) × Longer xss yss

pub Longer-refl : (xss : List (List Instruction)) → Longer xss xss
Longer-refl [] = tt
Longer-refl (xs ∷ xss) = (([], sym (append-nil xs)), Longer-refl xss)

-- a list at an index is replaced by a longer one
abbrev pub extend_at : List (List Instruction) → ℕ → List Instruction → List (List Instruction)
extend_at [] i zs = []
extend_at (xs ∷ xss) zero zs = (xs ++ zs) ∷ xss
extend_at (xs ∷ xss) (suc i) zs = xs ∷ extend_at xss i zs

pub Longer-extend_at :
    (xss yss : List (List Instruction)) (i : ℕ) (zs : List Instruction)
    → Longer xss yss
    → Longer xss (extend_at yss i zs)
Longer-extend_at [] yss i zs h = tt
Longer-extend_at (xs ∷ xss) [] i zs h = h
Longer-extend_at (xs ∷ xss) (ys ∷ yss) zero zs ((us, e), h) =
    ((us ++ zs, ap (λ t. t ++ zs) e ∙ append_assoc xs us zs), h)
Longer-extend_at (xs ∷ xss) (ys ∷ yss) (suc i) zs (e, h) = (e, Longer-extend_at xss yss i zs h)

pub Longer-append :
    (xss yss : List (List Instruction)) (zs : List Instruction)
    → Longer xss yss
    → Longer xss (yss ++ zs ∷ [])
Longer-append [] yss zs h = tt
Longer-append (xs ∷ xss) [] zs h = absurd h
Longer-append (xs ∷ xss) (ys ∷ yss) zs (e, h) = (e, Longer-append xss yss zs h)

pub Lists-append :
    (bs : List (CodeBlock Instruction)) (xss : List (List Instruction))
    → Lists bs xss
    → Lists (bs ++ code_block_create ∷ []) (xss ++ [] ∷ [])
Lists-append [] [] h = (code_block_create-IsBlock, tt)
Lists-append [] (xs ∷ xss) h = absurd h
Lists-append (b ∷ bs) [] h = absurd h
Lists-append (b ∷ bs) (xs ∷ xss) (e, h) = (e, Lists-append bs xss h)

-- The block is a list of instructions.
abbrev pub Listed : CodeBlock Instruction → Type 0
Listed block = (xs : List Instruction) × IsBlock block xs

-- a change of a block that appends to it
abbrev pub Appends : (CodeBlock Instruction → Result (CodeBlock Instruction)) → Type 0
Appends f =
    (b : CodeBlock Instruction) (xs : List Instruction)
    → IsBlock b xs
    → (b' : CodeBlock Instruction) × (zs : List Instruction) × (f b ≡ ok b') × IsBlock b' (xs ++ zs)

-- An appending change of the block at an index.
abbrev changed :
    (CodeBlock Instruction → Result (CodeBlock Instruction))
    → List (CodeBlock Instruction)
    → ℕ
    → Result (CodeBlock Instruction)
changed f bs i = bind (found (get_elem? bs i)) f

pub changed-Holds :
    (f : CodeBlock Instruction → Result (CodeBlock Instruction))
    → Appends f
    → (bs : List (CodeBlock Instruction)) (xss : List (List Instruction)) (i : ℕ) → Lists bs xss
    → Holds
        (λ b. (zs : List Instruction) × Lists (set bs i b) (extend_at xss i zs))
        (changed f bs i)
changed-Holds f h [] xss i l = none_left
changed-Holds f h (b ∷ bs) [] i l = absurd l
changed-Holds f h (b ∷ bs) (xs ∷ xss) zero (e, l) =
    let (b', zs, ran, d) = h b xs e in rw ran (value (zs, (d, l)))
changed-Holds f h (b ∷ bs) (xs ∷ xss) (suc i) (e, l) =
    weaken-Holds (changed-Holds f h bs xss i l) λ b' (zs, d). (zs, (e, d))

pub found-Holds :
    (bs : List (CodeBlock Instruction)) (xss : List (List Instruction)) (i : ℕ)
    → Lists bs xss
    → Holds Listed (found (get_elem? bs i))
found-Holds [] xss i l = none_left
found-Holds (b ∷ bs) [] i l = absurd l
found-Holds (b ∷ bs) (xs ∷ xss) zero (e, l) = value (xs, e)
found-Holds (b ∷ bs) (xs ∷ xss) (suc i) (e, l) = found-Holds bs xss i l
