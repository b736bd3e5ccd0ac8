-- ===== src/Lib.antt =====
-- Nord: a small scripting language. A text is scanned into tokens (src/compiler/lex.c, token.c), parsed
-- (parse.c) and compiled (compile.c, with the symbol maps of symbol.c) to the register code of
-- src/machine/bytecode.h, which src/machine/vm.c runs, with the functions of src/lang/builtins.c.
--
-- The program's parts and their files:
-- - Prelude: lists, tests, results and integers that the others share. A `Result` is a value or a
--   `Fault`: a read or a write outside an array, a read of storage that was never written, a failed
--   assertion, a division trap, an exit, a null pointer. `out_of_fuel` belongs to the model only.
-- - Memory: src/machine/memory.c, `memory_set` and `memory_get` on the contents and the capacity.
--   Memory.Refinement has the unbounded array that it stands for.
-- - Bytecode: src/machine/bytecode.c, code blocks and code collections, the allocated slots included.
-- - Hash: src/util/hash.c. Symbol: src/compiler/symbol.c, growth, probing and scopes.
-- - Chars: src/util/match.c. Token: src/compiler/token.c. Lexeme: the matchers of src/compiler/lex.c and
--   the switch of `peek`. Lexer: the scanning context, `peek`, `accept`, `backup`, `match`,
--   `token_value`, `scan_input`.
-- - Syntax: src/compiler/parse.h and the constructors of src/compiler/parse.c. An `ast_t *` is null or a
--   node; a part of a node that no statement stored is `none`.
-- - Parser: src/compiler/parse.c, one function per function of the source under its name (`unary` and
--   `tuple` are `parse_unary` and `parse_tuple`). The four loops over operators of one level are
--   `operators_from`. Parser.Tree has the grammar that the trees follow.
-- - Word and Floats: the arithmetic of C. An `int` is its 32-bit pattern and wraps around; `float` is a
--   parameter, a record of operations. Only what is said of comparisons asks something of it: that the
--   conversion of integers up to 2 ^ 24 is exact.
-- - Value: src/machine/value.c and value.h. Texts and tuples are immutable once built; an iterator is
--   an address of the machine's heap, since it is changed through every reference.
-- - Machine: the state of src/machine/vm.h, with the stacks and the buffers. Operand: the macros of
--   src/machine/vm.c. Transfer, Operators and Calls: the cases of `vm_execute`, one function each,
--   with `instruction_call`. Execute: the dispatch and the loop.
-- - Builtins: src/lang/builtins.c, and the lookup of src/util/dl.c as a comparison of names.
-- - Codegen: src/compiler/compile.c, the instruction macros and the code of a comparison.
-- - Compile: the rest of src/compiler/compile.c, one function per function of the source, and
--   `symbol_name_for_module_path` of src/lang/module.c. The blocks of code are shared by reference, so
--   they stand in a store. Compile.Program closes the recursion over the tree. Compile.Expressions has
--   the integer expressions: numbers below 2 ^ 15, parentheses, negation, sums, differences, products.
--   Compile.Comparisons has the comparisons of one instruction between two of them.
-- - Examples: tests, and a concrete instance of each theorem.
--
-- Bounds and fuel. The scanning loop has one more round than there are bytes, since each round takes a
-- byte, and the loop of `scan_input` likewise. The loop of `vm_execute` need not end: its fuel is an
-- argument, and Execute.Fuel has the runs of the loop without it. `print_internal` has one level for
-- each cell of the heap, since an iterator's collection is older than the iterator.
-- The parser calls itself through a record of its recursive entries, and each of its levels is one
-- amount of fuel; there is one more level than the buffer has bytes. The compiler recurses
-- over the tree.
-- `atof`, and the room that the C library gives an allocation of a size, are parameters of the compiler.
-- Capacities stay below 2 ^ 30 where the C code multiplies an `int`. A program counter is 64 bits wide.
-- The index of a function's locals is a byte in the source and a number here.
--
-- Not modelled: `print_ast`, src/machine/binary.c, disassemble.c, src/util/error.c, the main program, and
-- everything that only prints or frees. The parser starts from a scanning context whose tokens are zero;
-- the source leaves them unset, but at the start of a buffer nothing depends on them.
-- Reading, compiling and running an imported file, and the clock, are the environment's. The layout of
-- a union is not modelled, but the model tells when a member is read that was not written. `memcmp` is
-- taken to compare up to the first difference, so that a keyword that is longer than the rest of the
-- buffer is compared with the terminator and no further.
pub mod Prelude
pub mod Memory
pub mod Bytecode
pub mod Hash
pub mod Symbol
pub mod Syntax
pub mod Chars
pub mod Token
pub mod Lexeme
pub mod Lexer
pub mod Parser
pub mod Word
pub mod Floats
pub mod Value
pub mod Machine
pub mod Operand
pub mod Builtins
pub mod Transfer
pub mod Operators
pub mod Calls
pub mod Execute
pub mod Codegen
pub mod Compile
pub mod Examples
