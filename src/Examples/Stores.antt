-- ===== src/Examples/Stores.antt =====
-- Witnesses of the theorems about memory, code blocks, token lists, names and symbols.
use nord.Prelude.{
  ℕ, zero, suc, ◌*◌, ◌%◌, ◌^◌, ◌≡◌, ◌≢◌, refl, none, some, [], ◌∷◌, ◌==◌, if◌then◌else◌, arith,
  str_eq, get_or, replicate,
}
use nord.Prelude.Int.{pos}
use nord.Prelude.Result.{ok, fault, out_of_bounds}
use nord.Memory.{Memory, memory_set, memory_get}
use nord.Memory.Refinement.{
  IsValid, view, Stores, memory_set-Stores, memory_set_overrun, memory_get-view,
}
use nord.Bytecode.{CodeBlock, code_block_create, code_block_write, code_block_merge}
use nord.Bytecode.Growth.{
  IsBlock, code_block_create-IsBlock, code_block_write-IsBlock, code_block_merge-IsBlock,
}
use nord.Token.{TokenList, zero_token, token_list_create, token_list_add}
use nord.Token.Growth.{IsTokens, token_list_create-IsTokens, token_list_add-IsTokens}
use nord.Hash.{pjw_hash, pjw_from, pjw_step, char_to_u64, high_byte}
use nord.Hash.Horner.{horner, pjw_hash-horner}
use nord.Symbol.{
  Symbol, SymbolMap, Name, zeroed, home, grow, ensure_room, probe, place, advance,
  symbol_map_create, symbol_map_set, symbol_map_get_local,
}
use nord.Symbol.Defined.{AllDefined, replicate-AllDefined}
use nord.Symbol.Lookup.{get_local-set, symbol_map_set-AllDefined, get_local-set_other}
use nord.Symbol.Growth.{last_at, grow-last_at, Lacks, grow_forgets}

-- Two cells that hold 5 and 6, and 0 for an absent value.
abbrev sample_memory : Memory ℕ
sample_memory = record { capacity = 2; contents = 5 ∷ 6 ∷ [] }

sample_memory-IsValid : IsValid sample_memory
sample_memory-IsValid = record { allocated = refl; nonempty = omega arith; small = omega arith }

memory_set-Stores_example :
    (mem' : Memory ℕ) × (memory_set 0 sample_memory (pos 7) 9 ≡ ok mem')
    × Stores 0 sample_memory 7 9 mem'
memory_set-Stores_example =
    memory_set-Stores 0 sample_memory 7 9 sample_memory-IsValid (omega arith)

memory_set_overrun_example : memory_set 0 sample_memory (pos 4) 9 ≡ fault out_of_bounds
memory_set_overrun_example = memory_set_overrun 0 sample_memory 4 9 sample_memory-IsValid refl

memory_get-view_example :
    memory_get 0 sample_memory (pos 2)
    ≡ (if 2 == 2 then fault out_of_bounds else ok (view 0 sample_memory 2))
memory_get-view_example = memory_get-view 0 sample_memory 2 sample_memory-IsValid

code_block_write-IsBlock_example :
    (block' : CodeBlock ℕ) × (code_block_write code_block_create 7 ≡ ok block')
    × IsBlock block' (7 ∷ [])
code_block_write-IsBlock_example =
    code_block_write-IsBlock code_block_create [] 7 code_block_create-IsBlock

code_block_merge-IsBlock_example :
    (into' : CodeBlock ℕ) × (code_block_merge code_block_create code_block_create ≡ ok into')
    × IsBlock into' []
code_block_merge-IsBlock_example =
    code_block_merge-IsBlock code_block_create code_block_create [] [] code_block_create-IsBlock
      code_block_create-IsBlock

token_list_add-IsTokens_example :
    (list' : TokenList) × (token_list_add (token_list_create 2) zero_token ≡ ok list')
    × IsTokens list' (zero_token ∷ [])
token_list_add-IsTokens_example =
    token_list_add-IsTokens (token_list_create 2) [] zero_token
      (token_list_create-IsTokens 2 (omega arith))

pjw_hash-horner_example : pjw_hash (97 ∷ 98 ∷ []) % 2 ^ 28 ≡ horner 0 (97 ∷ 98 ∷ []) % 2 ^ 28
pjw_hash-horner_example = pjw_hash-horner (97 ∷ 98 ∷ [])

-- The names `a` and `q`, of one slot in a map of 16 entries.
abbrev name_a : Name
name_a = 97 ∷ []

abbrev name_q : Name
name_q = 113 ∷ []

abbrev symbol_of : Name → ℕ → Symbol
symbol_of name address = record {
  name = some name;
  type = nord.Symbol.sym_var;
  location = record { kind = nord.Symbol.loc_register; address = address };
}

abbrev map_of_a : SymbolMap
map_of_a = record {
  size = 1;
  capacity = 8;
  items = zeroed ∷ symbol_of name_a 3 ∷ replicate 6 zeroed;
}

abbrev map_of_both : SymbolMap
map_of_both = record {
  size = 2;
  capacity = 8;
  items = zeroed ∷ symbol_of name_a 3 ∷ symbol_of name_q 4 ∷ replicate 5 zeroed;
}

set_a : symbol_map_set symbol_map_create (symbol_of name_a 3) ≡ ok map_of_a
unfolding symbol_map_set symbol_map_create ensure_room place probe home pjw_hash pjw_from pjw_step
    char_to_u64 high_byte
set_a = refl

set_q : symbol_map_set map_of_a (symbol_of name_q 4) ≡ ok map_of_both
unfolding symbol_map_set ensure_room place probe home pjw_hash pjw_from pjw_step char_to_u64
    high_byte str_eq
set_q = refl

get_a : symbol_map_get_local map_of_a name_a ≡ ok (symbol_of name_a 3)
unfolding symbol_map_get_local advance home pjw_hash pjw_from pjw_step char_to_u64 high_byte str_eq
get_a = refl

created-AllDefined : AllDefined symbol_map_create.items
unfolding symbol_map_create
created-AllDefined = replicate-AllDefined 8

get_local-set_example : symbol_map_get_local map_of_a name_a ≡ ok (symbol_of name_a 3)
get_local-set_example =
    get_local-set symbol_map_create map_of_a (symbol_of name_a 3) name_a refl refl
      created-AllDefined set_a

symbol_map_set-AllDefined_example : AllDefined map_of_a.items
symbol_map_set-AllDefined_example =
    symbol_map_set-AllDefined symbol_map_create map_of_a (symbol_of name_a 3) name_a refl refl
      created-AllDefined set_a

a-ne-q : name_a ≢ name_q
a-ne-q h = ground arith

get_local-set_other_example : symbol_map_get_local map_of_both name_a ≡ ok (symbol_of name_a 3)
get_local-set_other_example =
    get_local-set_other map_of_a map_of_both (symbol_of name_q 4) (symbol_of name_a 3) name_q name_a
      refl refl a-ne-q (omega arith) set_q refl get_a

grow-last_at_example :
    get_or (grow map_of_both).items 1 zeroed ≡ last_at map_of_both.items (8 * 2) 1 zeroed
grow-last_at_example = grow-last_at map_of_both 1 (omega arith)

q-ne-a : name_q ≢ name_a
q-ne-a h = ground arith

same_home : home name_q (8 * 2) ≡ home name_a (8 * 2)
unfolding home pjw_hash pjw_from pjw_step char_to_u64 high_byte
same_home = refl

zeroed-Lacks : (n : ℕ) → Lacks name_a (replicate n zeroed)
zeroed-Lacks zero = tt
zeroed-Lacks (suc n) = (λ h. nameless h, zeroed-Lacks n)
  where
    nameless : none ≢ some name_a
    nameless h = cc

-- `a` is lost when the map of `a` and `q` grows.
grow_forgets_example : (get_or (grow map_of_both).items 1 zeroed).name ≢ some name_a
grow_forgets_example =
    grow_forgets map_of_both (zeroed ∷ symbol_of name_a 3 ∷ []) (replicate 5 zeroed)
      (symbol_of name_q 4) name_a name_q (omega arith) refl refl same_home q-ne-a (zeroed-Lacks 5) 1
