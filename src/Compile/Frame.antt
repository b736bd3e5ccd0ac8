-- ===== src/Compile/Frame.antt =====
-- src/compiler/compile.c: what a part of the compiler leaves as it was, and the code that is there.
use nord.Prelude.{
  ℕ, ◌+◌, ◌%◌, ◌≤◌, ◌≡◌, ◌∙◌, Bool, true, false, List, [], ◌∷◌, ◌++◌, arith, length, set,
}
use mathlib.Core.Path.{subst}
use nord.Prelude.State.{continue, branch, lift, check}
use nord.Prelude.Result.{Result, ok, fault, Fault, bind}
use nord.Prelude.Holds.{Holds, value, none_left}
use nord.Memory.{memory_set}
use nord.Bytecode.{CodeBlock}
use nord.Bytecode.Growth.{code_block_write-IsBlock, code_block_merge-IsBlock}
use nord.Symbol.{Symbol, SymbolMap, symbol_map_create, symbol_map_set}
use nord.Value.{Value}
use nord.Machine.{Instruction}
use nord.Compile.{
  CompileContext, Compiler, edit, write, merge, block_at, new_block, remember, look_up, define,
  set_rp, next_rp,
}
use nord.Compile.Constants.{cells, memory_set-cells}
use nord.Compile.Lists.{
  Lists, Longer, extend_at, Longer-extend_at, Longer-append, Lists-append, Listed, Appends,
  changed-Holds, found-Holds,
}

-- What a part of the compiler keeps: where it is, the first constants, and lists of instructions that the blocks start with.
pub record Frame (R : Type 0) : Type 0 where
  pub current : ℕ
  pub region : ℕ
  pub depth : ℕ
  pub constants : ℕ
  pub values : List (Value R)
  pub lists : List (List Instruction)

abbrev pub Any : {A : Type 0} → A → Type 0
Any a = Unit

pub Any-Holds : {A : Type 0} (r : Result A) → Holds Any r
Any-Holds (ok a) = value tt
Any-Holds (fault why) = none_left

module _ {R : Type 0} where
  pub record Inside (frame : Frame R) (c : CompileContext R) : Type 0 where
    pub current : c.current ≡ frame.current
    pub region : c.cp ≡ frame.region
    pub depth : length c.parents ≡ frame.depth
    pub constants : frame.constants ≤ c.mp
    pub values : cells frame.constants c.data_ ≡ frame.values
    pub code : (xss : List (List Instruction)) × Lists c.blocks xss × Longer frame.lists xss

  -- The run ends inside of the frame, with a value that satisfies `P`.
  pub data Ends {A : Type 0} (frame : Frame R) (P : A → Type 0)
      : Result (A × CompileContext R) → Type 0 where
    inside : {a : A} {c : CompileContext R} → P a → Inside frame c → Ends frame P (ok (a, c))
    stops : {why : Fault} → Ends frame P (fault why)

  -- `p` keeps every frame.
  abbrev pub Keeps : {A : Type 0} → Compiler R A → Type 0
  Keeps p = (frame : Frame R) (c : CompileContext R) → Inside frame c → Ends frame Any (p c)

  module _ {A B : Type 0} {frame : Frame R} {P : A → Type 0} {Q : B → Type 0} where
    pub continue-Ends :
        (frame' : Frame R) (m : Result (A × CompileContext R)) (next : A → Compiler R B)
        → Ends frame' P m
        → ((a : A) (c : CompileContext R) → P a → Inside frame' c → Ends frame Q (next a c))
        → Ends frame Q (continue m next)
    unfolding continue
    continue-Ends frame' m next (inside p i) h = h _ _ p i
    continue-Ends frame' m next stops h = stops

  module _ {A : Type 0} {frame : Frame R} {P : A → Type 0} where
    pub branch-Ends :
        (b : Bool) (p q : Compiler R A) (c : CompileContext R)
        → Ends frame P (p c)
        → Ends frame P (q c)
        → Ends frame P (branch b p q c)
    unfolding branch
    branch-Ends true p q c h k = h
    branch-Ends false p q c h k = k

    pub lift-Ends :
        (r : Result A) (c : CompileContext R) → Holds P r → Inside frame c → Ends frame P (lift r c)
    unfolding lift
    lift-Ends r c (value p) i = inside p i
    lift-Ends r c none_left i = stops

  module _ {frame : Frame R} (c : CompileContext R) (i : Inside frame c) where
    pub check-Ends : (b : Bool) → Ends frame Any (check b c)
    unfolding check
    check-Ends true = inside tt i
    check-Ends false = stops

    edit-Ends :
        (f : CodeBlock Instruction → Result (CodeBlock Instruction))
        → Appends f
        → Ends frame Any (edit f c)
    unfolding edit
    edit-Ends f h = at _ (changed-Holds f h c.blocks i.code.0 c.current i.code.1)
      where
        at :
            (r : Result (CodeBlock Instruction))
            → Holds
                (λ b.
                  (zs : List Instruction) × Lists
                    (set c.blocks c.current b)
                    (extend_at i.code.0 c.current zs))
                r
            → Ends frame Any (bind r λ b. ok (tt, record c { blocks = set c.blocks c.current b }))
        at (ok b) (value (zs, l)) = inside tt (record {
          current = i.current;
          region = i.region;
          depth = i.depth;
          constants = i.constants;
          values = i.values;
          code = (
            extend_at i.code.0 c.current zs,
            l,
            Longer-extend_at frame.lists i.code.0 c.current zs i.code.2,
          );
        })
        at (fault why) none_left = stops

    pub write-Ends : (x : Instruction) → Ends frame Any (write x c)
    write-Ends x =
        edit-Ends _
          λ b xs e. let (b', ran, d) = code_block_write-IsBlock b xs x e in (b', x ∷ [], ran, d)

    pub merge-Ends : (from : CodeBlock Instruction) → Listed from → Ends frame Any (merge from c)
    merge-Ends from (ys, d) =
        edit-Ends _
          λ b xs e. let (b', ran, f) = code_block_merge-IsBlock b from xs ys e d in (b', ys, ran, f)

    pub block_at-Ends : (n : ℕ) → Ends frame Listed (block_at n c)
    block_at-Ends n = lift-Ends _ c (found-Holds c.blocks i.code.0 n i.code.1) i

    pub new_block-Ends : Ends frame Any (new_block c)
    unfolding new_block
    new_block-Ends = inside tt (record {
      current = i.current;
      region = i.region;
      depth = i.depth;
      constants = i.constants;
      values = i.values;
      code = (
        i.code.0 ++ [] ∷ [],
        Lists-append c.blocks i.code.0 i.code.1,
        Longer-append frame.lists i.code.0 [] i.code.2,
      );
    })

    -- The constant goes behind those that are kept.
    pub remember-place :
        (v : Value R) → Ends frame (λ place. frame.constants ≤ place) (remember v c)
    unfolding remember
    remember-place v = at _ (memory_set-cells frame.constants c.mp c.data_ v i.constants)
      where
        at :
            (r : Result (nord.Memory.Memory (Value R)))
            → Holds (λ m. cells frame.constants m ≡ cells frame.constants c.data_) r
            → Ends frame
                (λ place. frame.constants ≤ place)
                (bind r λ m. ok (c.mp, record c { data_ = m; mp = c.mp + 1 }))
        at (ok m) (value e) = inside i.constants (record {
          current = i.current;
          region = i.region;
          depth = i.depth;
          constants = omega (arith, i.constants);
          values = e ∙ i.values;
          code = i.code;
        })
        at (fault why) none_left = stops

    pub remember-Ends : (v : Value R) → Ends frame Any (remember v c)
    remember-Ends v = forget (remember-place v)
      where
        forget :
            {r : Result (ℕ × CompileContext R)}
            → Ends frame (λ place. frame.constants ≤ place) r
            → Ends frame Any r
        forget (inside p k) = inside tt k
        forget stops = stops

    pub look_up-Ends : (name : nord.Symbol.Name) → Ends frame Any (look_up name c)
    look_up-Ends name = lift-Ends _ c (Any-Holds _) i

    pub define-Ends : (symbol : Symbol) → Ends frame Any (define symbol c)
    unfolding define
    define-Ends symbol = at (symbol_map_set c.symbols symbol)
      where
        at : (r : Result SymbolMap) → Ends frame Any (bind r λ m. ok (tt, record c { symbols = m }))
        at (ok m) = inside tt (record {
          current = i.current;
          region = i.region;
          depth = i.depth;
          constants = i.constants;
          values = i.values;
          code = i.code;
        })
        at (fault why) = stops

    moved-Inside : (rp : ℕ) → Inside frame (record c { rp = rp })
    moved-Inside rp = record {
      current = i.current;
      region = i.region;
      depth = i.depth;
      constants = i.constants;
      values = i.values;
      code = i.code;
    }

    pub set_rp-Ends : (rp : ℕ) → Ends frame Any (set_rp rp c)
    unfolding set_rp
    set_rp-Ends rp = inside tt (moved-Inside (rp % 256))

    pub next_rp-Ends : Ends frame Any (next_rp c)
    unfolding next_rp
    next_rp-Ends = inside tt (moved-Inside ((c.rp + 1) % 256))

    pub ok-Ends : {A : Type 0} (a : A) → Ends frame Any (ok (a, c))
    ok-Ends a = inside tt i

    pub read-Ends : {A : Type 0} (r : Result A) → Ends frame Any (lift r c)
    read-Ends r = lift-Ends r c (Any-Holds r) i

  -- a step, whose value does not matter
  pub next-Ends :
      {A B : Type 0} {frame : Frame R} (m : Result (A × CompileContext R)) (next : A → Compiler R B)
      → Ends frame Any m
      → ((a : A) (c : CompileContext R) → Inside frame c → Ends frame Any (next a c))
      → Ends frame Any (continue m next)
  next-Ends {frame = frame} m next h k = continue-Ends frame m next h λ a c _. k a c

  pub fault-Ends : {A : Type 0} {frame : Frame R} (why : Fault) → Ends {A = A} frame Any (fault why)
  fault-Ends why = stops

  pub Ends-ok :
      {A : Type 0} {frame : Frame R} {P : A → Type 0} {m : Result (A × CompileContext R)} {a : A}
      {c : CompileContext R}
      → Ends frame P m
      → m ≡ ok (a, c)
      → Inside frame c
  Ends-ok {frame = frame} (inside p i) e = subst (Inside frame) (cc) i
  Ends-ok stops e = cc

pub ruleset frame_rules = (
  next-Ends, branch-Ends, fault-Ends, ok-Ends, read-Ends, check-Ends, write-Ends, remember-Ends,
  look_up-Ends, define-Ends, set_rp-Ends, next_rp-Ends,
)
